-- ===== src/Labeling/Inv/Detach.antt =====
-- A prefix node leaves its attribute node (release and removePefixFomAttr in Labeling/rtable.c).
use native.Mathlib.Decide.{ℕ_discrete}
use bgpmon.Base.{ℕ, ◌+◌, ◌≡◌, ◌≢◌, ◌%◌, ◌^◌, refl, sym, ap, ◌∙◌, some, arith, ◌==◌, ok}
use bgpmon.Labeling.Heap.{one, load, store, free, occurs, erase}
use bgpmon.Labeling.Heaps.{
  load-store_self, load-free_self, load-free_ne, load-free_back, store-store, count_if-free,
  eq_self, eq_ne, occurs-erase_self, occurs-erase_ne,
}
use bgpmon.Labeling.State.{PrefixNode, AttrNode, Rib, minus, unused, size_pointer}
use bgpmon.Labeling.Attributes.{remove_prefix_from_attr}
use bgpmon.Labeling.Prefixes.{release}
use bgpmon.Labeling.Inv.{AttrSide, IsValid, points, users}
use bgpmon.Labeling.Inv.Release.{rereference}

module _ (r : Rib) (v : IsValid r) (x : ℕ) (m : PrefixNode) (get : load r.prefixes x ≡ some m)
    (n : AttrNode) (at : load r.attributes m.data_attr ≡ some n) where
  abbrev a : ℕ
  a = m.data_attr

  abbrev pub released : Rib
  released = record r {
    attributes = store r.attributes a (record n { ref_count = minus 16 n.ref_count 1 });
  }

  abbrev pub left : AttrNode
  left = record n {
    ref_count = minus 16 n.ref_count 1;
    prefix_ref_node = erase n.prefix_ref_node x;
  }

  abbrev pub detached : Rib
  detached = unused size_pointer (record r { attributes = store r.attributes a left })

  listed : occurs x n.prefix_ref_node ≡ 1
  listed = v.by_attr.refs a n at x ∙ ap (λ o. points o a) get ∙ ap one (eq_self a)

  pub release_lem : release a r ≡ ok released
  release_lem = rw at refl

  pub remove_prefix_from_attr_lem : remove_prefix_from_attr x a released ≡ ok (some detached)
  unfolding remove_prefix_from_attr
  remove_prefix_from_attr_lem =
      rw
        (
          load-store_self r.attributes a n (record n { ref_count = minus 16 n.ref_count 1 }) at,
          listed,
          store-store r.attributes a (record n { ref_count = minus 16 n.ref_count 1 }) left,
        )
        refl

  pub fewer_users : users (free r.prefixes x) a + 1 ≡ users r.prefixes a
  fewer_users = omega (
    arith,
    count_if-free (λ k. k.data_attr == a) r.prefixes x m get,
    ap one (eq_self m.data_attr),
  )

  unlisted : (y : ℕ) → occurs y (erase n.prefix_ref_node x) ≡ points (load (free r.prefixes x) y) a
  unlisted y = elim (ℕ_discrete y x) [
    | yes e ↦
        rw (e, load-free_self r.prefixes x v.by_prefix.unique_prefix)
          (omega (arith, listed, occurs-erase_self n.prefix_ref_node x (omega (arith, listed))))
    | no ne ↦
        rw (load-free_ne r.prefixes x y ne, occurs-erase_ne n.prefix_ref_node x y ne)
          (v.by_attr.refs a n at y)
  ]

  elsewhere :
      (b y : ℕ) → b ≢ a → points (load (free r.prefixes x) y) b ≡ points (load r.prefixes y) b
  elsewhere b y ne = elim (ℕ_discrete y x) [
    | yes e ↦
        rw (e, load-free_self r.prefixes x v.by_prefix.unique_prefix, get)
          (ap one (sym (eq_ne a b (λ q. ne (sym q)))))
    | no ne' ↦ rw (load-free_ne r.prefixes x y ne') refl
  ]

  others : (b : ℕ) → b ≢ a → users (free r.prefixes x) b ≡ users r.prefixes b
  others b ne = omega (
    arith,
    count_if-free (λ k. k.data_attr == b) r.prefixes x m get,
    ap one (eq_ne a b (λ q. ne (sym q))),
  )

  lowered : minus 16 n.ref_count 1 ≡ users (free r.prefixes x) a % 2 ^ 16
  lowered = omega (arith, v.by_attr.counts a n at, fewer_users)

  pub detached-AttrSide :
      AttrSide (free r.prefixes x) r.next_address detached.attributes r.paths r.attribute_table
  detached-AttrSide =
      rereference r.prefixes (free r.prefixes x) r.next_address r.attributes r.paths
        r.attribute_table v.by_attr a n at (minus 16 n.ref_count 1) (erase n.prefix_ref_node x)
        unlisted lowered elsewhere others
        (λ y k old.
          v.by_attr.live y k (load-free_back r.prefixes x y k v.by_prefix.unique_prefix old).1)
