-- ===== src/Labeling/Inv/Prefixes.antt =====
-- The prefix table over a change of a node, a new one and the removal of one (Labeling/rtable.c).
use native.Mathlib.Decide.{ℕ_discrete}
use bgpmon.Base.{ℕ, ◌+◌, ◌≤◌, ◌≡◌, ◌≢◌, refl, sym, ap, ◌∙◌, ◌∷◌, none, some, arith, inl, inr}
use bgpmon.Labeling.Heap.{Heap, one, load, store, free, occurs}
use bgpmon.Labeling.Heaps.{
  eq_self, eq_ne, load-new_self, load-new_ne, load-new_back, load-store_self, load-store_ne,
  load-store_back, store-Unique, free-Unique, load-free_self, load-free_ne, load-free_back,
}
use bgpmon.Labeling.Hash.{prefix_hash}
use bgpmon.Labeling.State.{PrefixNode, Table, prefix_bytes}
use bgpmon.Labeling.Table.{link, unlink}
use bgpmon.Labeling.Inv.{PrefixSide, prefix_home}
use bgpmon.Labeling.Inv.Buckets.{link_here, link_there, unlink_self, unlink_ne}

module _ (next : ℕ) (h : Heap PrefixNode) (t : Table) (v : PrefixSide next h t) where
  pub PrefixSide-mono : (next' : ℕ) → next ≤ next' → PrefixSide next' h t
  PrefixSide-mono next' le = record {
    next_prefix = λ x le'. v.next_prefix x (omega (arith, le, le'));
    unique_prefix = v.unique_prefix;
    chain = v.chain;
    keys = v.keys;
  }

module _ (next : ℕ) (h : Heap PrefixNode) (t : Table) (v : PrefixSide next h t) (x : ℕ)
    (m : PrefixNode) (get : load h x ≡ some m) where
  abbrev home : ℕ
  home = prefix_hash (prefix_bytes m.key_prefix) t.table_size

  -- The node gets another attribute node or another time.
  module _ (a ts : ℕ) where
    abbrev m' : PrefixNode
    m' = record m { data_attr = a; originated_ts = ts }

    same_home :
        (y i : ℕ)
        → prefix_home t.table_size (load (store h x m') y) i ≡ prefix_home t.table_size (load h y) i
    same_home y i = elim (ℕ_discrete y x) [
      | yes e ↦ rw (e, load-store_self h x m m' get, get) refl
      | no ne ↦ rw (load-store_ne h x y m' ne) refl
    ]

    key_before :
        (y : ℕ) (k : PrefixNode)
        → load (store h x m') y ≡ some k
        → (l : PrefixNode) × (load h y ≡ some l) × (k.key_prefix ≡ l.key_prefix)
    key_before y k after = elim (load-store_back h x y m m' k get after) [
      | inl (e, same) ↦ (m, ap (load h) e ∙ get, ap (λ z. z.key_prefix) same)
      | inr (ne, old) ↦ (k, old, refl)
    ]

    pub stored-PrefixSide : PrefixSide next (store h x m') t
    stored-PrefixSide = record {
      next_prefix = λ y le.
          let gone = v.next_prefix y le in
          let ne : y ≢ x = λ e. absurd (let both = ap (load h) e in cc) in
          load-store_ne h x y m' ne ∙ gone;
      unique_prefix = store-Unique h x m' v.unique_prefix;
      chain = λ i y. v.chain i y ∙ sym (same_home y i);
      keys = λ y z k l get_y get_z same.
          let (k', old_k, e_k) = key_before y k get_y in
          let (l', old_l, e_l) = key_before z l get_z in
          v.keys y z k' l' old_k old_l (sym e_k ∙ same ∙ e_l);
    }

  once : occurs x (t.entries home).node ≡ 1
  once = v.chain home x ∙ ap (λ o. prefix_home t.table_size o home) get ∙ ap one (eq_self home)

  chain_left :
      (i y : ℕ)
      → occurs y ((unlink home x t).entries i).node ≡ prefix_home t.table_size (load (free h x) y) i
  chain_left i y = elim (ℕ_discrete y x) [
    | yes e ↦
        rw (e, load-free_self h x v.unique_prefix)
          (unlink_self home x t i once (λ ne.
            v.chain i x
            ∙ ap (λ o. prefix_home t.table_size o i) get
            ∙ ap one (eq_ne home i (λ q. ne (sym q)))))
    | no ne ↦ rw (load-free_ne h x y ne) (unlink_ne home x t i y ne ∙ v.chain i y)
  ]

  was : (y : ℕ) (k : PrefixNode) → load (free h x) y ≡ some k → load h y ≡ some k
  was y k left = (load-free_back h x y k v.unique_prefix left).1

  pub freed-PrefixSide : PrefixSide next (free h x) (unlink home x t)
  unfolding unlink
  freed-PrefixSide = record {
    next_prefix = λ y le.
        let gone = v.next_prefix y le in
        let ne : y ≢ x = λ e. absurd (let both = ap (load h) e in cc) in
        load-free_ne h x y ne ∙ gone;
    unique_prefix = free-Unique h x v.unique_prefix;
    chain = chain_left;
    keys = λ y z k l get_y get_z same. v.keys y z k l (was y k get_y) (was z l get_z) same;
  }

module _ (next : ℕ) (h : Heap PrefixNode) (t : Table) (v : PrefixSide next h t) (m : PrefixNode)
    (fresh : (y : ℕ) (k : PrefixNode) → load h y ≡ some k → k.key_prefix ≢ m.key_prefix) where
  abbrev i : ℕ
  i = prefix_hash (prefix_bytes m.key_prefix) t.table_size

  absent : load h next ≡ none
  absent = v.next_prefix next (omega arith)

  empty : (j : ℕ) → occurs next (t.entries j).node ≡ 0
  empty j = v.chain j next ∙ ap (λ o. prefix_home t.table_size o j) absent

  chain_more :
      (j y : ℕ)
      → occurs y ((link i next t).entries j).node
        ≡ prefix_home t.table_size (load ((next, m) ∷ h) y) j
  chain_more j y = elim (ℕ_discrete y next) [
    | yes e ↦
        rw (e, load-new_self h next m)
          (elim (ℕ_discrete j i) [
            | yes q ↦ rw q (
                omega (
                  arith,
                  link_here i next t next,
                  empty i,
                  ap one (eq_self next),
                  ap one (eq_self i),
                ))
            | no ne ↦ omega (
              arith,
              link_there i next t j next ne,
              empty j,
              ap one (eq_ne i j (λ q. ne (sym q))),
            )
          ])
    | no ne ↦ rw (load-new_ne h next y m ne) (elim (ℕ_discrete j i) [
      | yes q ↦ rw q (omega (arith, link_here i next t y, v.chain i y, ap one (eq_ne y next ne)))
      | no ne' ↦ link_there i next t j y ne' ∙ v.chain j y
    ])
  ]

  pub more-PrefixSide : PrefixSide (next + 1) ((next, m) ∷ h) (link i next t)
  unfolding link
  more-PrefixSide = record {
    next_prefix = λ y le.
        load-new_ne h next y m (λ e. absurd (omega (arith, e))) ∙ v.next_prefix y (omega arith);
    unique_prefix = (absent, v.unique_prefix);
    chain = chain_more;
    keys = λ y z k l get_y get_z same. elim (load-new_back h next y m k get_y) [
      | inl (e, is_m) ↦ elim (load-new_back h next z m l get_z) [
        | inl (e', is_m') ↦ e ∙ sym e'
        | inr (ne, old) ↦ absurd (fresh z l old (sym same ∙ ap (λ w. w.key_prefix) is_m))
      ]
      | inr (ne, old) ↦ elim (load-new_back h next z m l get_z) [
        | inl (e, is_m) ↦ absurd (fresh y k old (same ∙ ap (λ w. w.key_prefix) is_m))
        | inr (ne', old') ↦ v.keys y z k l old old' same
      ]
    ];
  }
