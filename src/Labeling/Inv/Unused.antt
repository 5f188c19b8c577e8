-- ===== src/Labeling/Inv/Unused.antt =====
-- The collection of an attribute node after a prefix left it (removeAttrNode and its callers in
-- Labeling/rtable.c).
use native.Mathlib.Decide.{ℕ_discrete}
use bgpmon.Base.{
  ℕ, ◌+◌, ◌≤◌, ◌<◌, ◌≡◌, ◌≢◌, ◌%◌, ◌^◌, refl, ap, ◌∙◌, ◌*◌, true, none, some, arith, if◌then◌else◌,
  ◌==◌, length, ok,
}
use bgpmon.Labeling.Heap.{Heap, load, store, free, occurs}
use bgpmon.Labeling.Heaps.{load-free_ne, length-free, eq_ne}
use bgpmon.Labeling.Hash.{attr_hash}
use bgpmon.Labeling.State.{
  PrefixNode, AsPath, AttrNode, Rib, minus, unused, size_prefix_ref_node, size_attr_node,
}
use bgpmon.Labeling.Table.{unlink}
use bgpmon.Labeling.Attributes.{destroy_attr_node, remove_attr_node, find_node}
use bgpmon.Labeling.Prefixes.{collect}
use bgpmon.Labeling.Inv.{AttrSide, users, attr_home}
use bgpmon.Labeling.Inv.Buckets.{find_node_lem}
use bgpmon.Labeling.Inv.Collect.{left-AttrSide, once, path_before}

-- What a RIB keeps when the attribute node at a is collected, or not.
pub record Kept (h : Heap PrefixNode) (r : Rib) (a : ℕ) (r' : Rib) : Type 0 where
  pub side : AttrSide h r'.next_address r'.attributes r'.paths r'.attribute_table
  pub same_next : r'.next_address ≡ r.next_address
  pub same_prefixes : r'.prefixes ≡ r.prefixes
  pub same_table : r'.prefix_table ≡ r.prefix_table
  pub same_nodes : (b : ℕ) → b ≢ a → load r'.attributes b ≡ load r.attributes b
  pub fewer : length r'.attributes ≤ length r.attributes
  pub same_size : r'.attribute_table.table_size ≡ r.attribute_table.table_size
  pub used_nodes : (b : ℕ) → 0 < users h b → load r'.attributes b ≡ load r.attributes b
  pub same_paths :
      (s : ℕ) (u : AsPath)
      → load r'.paths s ≡ some u
      → (w : AsPath) × (load r.paths s ≡ some w) × (u.as_path_data ≡ w.as_path_data)

module _ (h : Heap PrefixNode) (r : Rib)
    (v : AttrSide h r.next_address r.attributes r.paths r.attribute_table)
    (few : length r.attributes < 2 ^ 32) (a : ℕ) (n : AttrNode) (at : load r.attributes a ≡ some n)
    (p : AsPath) (path : load r.paths n.as_path ≡ some p) (no_users : users h a ≡ 0) where
  abbrev bucket : ℕ
  bucket = attr_hash p.as_path_data r.attribute_table.table_size

  abbrev unlinked : Rib
  unlinked = record r { attribute_table = unlink bucket a r.attribute_table }

  abbrev destroyed : Rib
  destroyed = unused (size_prefix_ref_node * length n.prefix_ref_node) (
      unused (size_attr_node + n.total_attr_len) (record unlinked {
        paths =
            if minus 32 p.ref_count 1 == 0
            then free r.paths n.as_path
            else store r.paths n.as_path (record p { ref_count = minus 32 p.ref_count 1 });
        attributes = free r.attributes a;
      }))

  abbrev removed : Rib
  removed = record destroyed {
    stats = record destroyed.stats { attr_count = minus 32 destroyed.stats.attr_count 1 };
  }

  destroy_attr_node_lem : destroy_attr_node a unlinked ≡ ok destroyed
  unfolding destroy_attr_node
  destroy_attr_node_lem = rw (at, path) refl

  in_bucket :
      (b : ℕ) → 0 < occurs b (r.attribute_table.entries bucket).node → load r.attributes b ≢ none
  in_bucket b there gone =
      absurd (omega (arith, there, v.chain bucket b, ap (λ o. attr_home o bucket) gone))

  found : find_node r.attributes (r.attribute_table.entries bucket).node a ≡ ok true
  found = find_node_lem r.attributes (r.attribute_table.entries bucket).node a in_bucket (
      omega (
        arith,
        once h r.next_address r.attributes r.paths r.attribute_table v few a n at no_users p path,
      ))

  not_counted : n.ref_count ≡ 0
  not_counted = v.counts a n at ∙ ap (λ u. u % 2 ^ 16) no_users

  pub remove_attr_node_lem : remove_attr_node a r ≡ ok (some removed)
  unfolding remove_attr_node
  remove_attr_node_lem = rw (at, path, found, not_counted, destroy_attr_node_lem) refl

  pub removed-Kept : Kept h r a removed
  unfolding unlink
  removed-Kept = record {
    side =
        left-AttrSide h r.next_address r.attributes r.paths r.attribute_table v few a n at no_users
          p path;
    same_next = refl;
    same_prefixes = refl;
    same_table = refl;
    same_nodes = load-free_ne r.attributes a;
    fewer = length-free r.attributes a;
    same_size = refl;
    used_nodes = λ b pos.
        load-free_ne r.attributes a b
          (λ e. absurd (let both = ap (users h) e in omega (arith, both, pos, no_users)));
    same_paths = λ s u get.
        let (w, old, same) =
          path_before h r.next_address r.attributes r.paths r.attribute_table v few a n at no_users
            p path s u get in
        (w, old, ap (λ z. z.as_path_data) same);
  }

module _ (h : Heap PrefixNode) (r : Rib)
    (v : AttrSide h r.next_address r.attributes r.paths r.attribute_table)
    (few : length r.attributes < 2 ^ 32) (a : ℕ) (n : AttrNode) (at : load r.attributes a ≡ some n)
    (fits : users h a < 2 ^ 16) where
  unchanged-Kept : Kept h r a r
  unchanged-Kept = record {
    side = v;
    same_next = refl;
    same_prefixes = refl;
    same_table = refl;
    same_nodes = λ b ne. refl;
    fewer = omega arith;
    same_size = refl;
    used_nodes = λ b pos. refl;
    same_paths = λ s u get. (u, get, refl);
  }

  pub collect_lem : (r' : Rib) × (collect a r ≡ ok r') × Kept h r a r'
  unfolding collect
  collect_lem = elim (ℕ_discrete (users h a) 0) [
    | yes e ↦
        let (p, path, home) = v.bucket a n at in
        (
          removed h r v few a n at p path e,
          rw
              (
                at,
                not_counted h r v few a n at p path e,
                remove_attr_node_lem h r v few a n at p path e,
              )
              refl,
          removed-Kept h r v few a n at p path e,
        )
    | no ne ↦
        let pos : n.ref_count ≢ 0 = λ z. ne (omega (arith, z, fits, v.counts a n at)) in
        (r, rw (at, eq_ne n.ref_count 0 pos) refl, unchanged-Kept)
  ]
