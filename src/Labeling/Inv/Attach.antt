-- ===== src/Labeling/Inv/Attach.antt =====
-- A prefix node enters the list of an attribute node (applyReachablePrefix in Labeling/rtable.c).
use native.Mathlib.Decide.{ℕ_discrete}
use bgpmon.Base.{ℕ, ◌+◌, ◌≡◌, ◌≢◌, refl, sym, ap, subst, ◌∙◌, ◌∷◌, none, some, arith, ◌==◌, ok}
use bgpmon.Labeling.Heap.{Heap, one, load, store, occurs}
use bgpmon.Labeling.Heaps.{eq_self, eq_ne}
use bgpmon.Labeling.State.{PrefixNode, AttrNode, Rib, plus, used, size_prefix_ref_node}
use bgpmon.Labeling.Prefixes.{attach}
use bgpmon.Labeling.Inv.{AttrSide, points, users}
use bgpmon.Labeling.Inv.Release.{rereference}

module _ (h h' : Heap PrefixNode) (r : Rib)
    (v : AttrSide h r.next_address r.attributes r.paths r.attribute_table) (x : ℕ) (m : PrefixNode)
    (n : AttrNode) (at : load r.attributes m.data_attr ≡ some n) (absent : load h x ≡ none)
    (present : load h' x ≡ some m) (others : (y : ℕ) → y ≢ x → load h' y ≡ load h y)
    (more : (b : ℕ) → users h' b ≡ one (m.data_attr == b) + users h b) where
  abbrev a : ℕ
  a = m.data_attr

  abbrev pub joined : AttrNode
  joined = record n { ref_count = plus 16 n.ref_count 1; prefix_ref_node = x ∷ n.prefix_ref_node }

  abbrev pub attached : Rib
  attached = used size_prefix_ref_node (record r { attributes = store r.attributes a joined })

  pub attach_lem : attach x a r ≡ ok attached
  unfolding attach
  attach_lem = rw at refl

  pointed : points (some m) a ≡ 1
  pointed = ap one (eq_self m.data_attr)

  before : occurs x n.prefix_ref_node ≡ 0
  before = v.refs a n at x ∙ ap (λ o. points o a) absent

  listed_here : occurs x (x ∷ n.prefix_ref_node) ≡ points (load h' x) a
  listed_here = rw present (omega (arith, before, pointed, ap one (eq_self x)))

  listed : (y : ℕ) → occurs y (x ∷ n.prefix_ref_node) ≡ points (load h' y) a
  listed y = elim (ℕ_discrete y x) [
    | yes e ↦
        subst (λ z. occurs z (x ∷ n.prefix_ref_node) ≡ points (load h' z) a) (sym e) listed_here
    | no ne ↦ rw (others y ne) (omega (arith, v.refs a n at y, ap one (eq_ne y x ne)))
  ]

  elsewhere : (b y : ℕ) → b ≢ a → points (load h' y) b ≡ points (load h y) b
  elsewhere b y ne = elim (ℕ_discrete y x) [
    | yes e ↦ rw (e, present, absent) (ap one (eq_ne a b (λ q. ne (sym q))))
    | no ne' ↦ rw (others y ne') refl
  ]

  new_live :
      (y : ℕ) (k : PrefixNode)
      → load h' y ≡ some k
      → (o : AttrNode) × (load r.attributes k.data_attr ≡ some o)
  new_live y k get = elim (ℕ_discrete y x) [
    | yes e ↦ let same : k ≡ m = cc in (n, ap (λ z. load r.attributes z.data_attr) same ∙ at)
    | no ne ↦ v.live y k (sym (others y ne) ∙ get)
  ]

  pub attached-AttrSide : AttrSide h' r.next_address attached.attributes r.paths r.attribute_table
  attached-AttrSide =
      rereference h h' r.next_address r.attributes r.paths r.attribute_table v a n at
        (plus 16 n.ref_count 1) (x ∷ n.prefix_ref_node) listed
        (omega (arith, v.counts a n at, more a, ap one (eq_self a))) elsewhere
        (λ b ne. omega (arith, more b, ap one (eq_ne a b (λ q. ne (sym q))))) new_live
