-- ===== src/Labeling/Inv/Release.antt =====
-- The invariant over a change of the references that an attribute node holds.
use native.Mathlib.Decide.{ℕ_discrete}
use bgpmon.Base.{ℕ, ◌≡◌, ◌≢◌, ◌%◌, ◌^◌, refl, sym, ap, ◌∙◌, List, none, some, arith, ◌==◌, inl, inr}
use bgpmon.Labeling.Heap.{Heap, load, store, occurs}
use bgpmon.Labeling.Heaps.{
  load-store_self, load-store_ne, load-store_back, store-Unique, count_if-store,
}
use bgpmon.Labeling.State.{PrefixNode, AsPath, AttrNode, Table}
use bgpmon.Labeling.Inv.{AttrSide, points, users, sharers, attr_home}

module _ (h h' : Heap PrefixNode) (next : ℕ) (attrs : Heap AttrNode) (paths : Heap AsPath)
    (t : Table) (v : AttrSide h next attrs paths t) (a : ℕ) (n : AttrNode)
    (at : load attrs a ≡ some n) (c : ℕ) (l : List ℕ)
    (refs' : (x : ℕ) → occurs x l ≡ points (load h' x) a) (counts' : c ≡ users h' a % 2 ^ 16)
    (points_ne : (b x : ℕ) → b ≢ a → points (load h' x) b ≡ points (load h x) b)
    (users_ne : (b : ℕ) → b ≢ a → users h' b ≡ users h b)
    (live' : (x : ℕ) (m : PrefixNode)
      → load h' x ≡ some m
      → (k : AttrNode) × (load attrs m.data_attr ≡ some k)) where
  abbrev changed : AttrNode
  changed = record n { ref_count = c; prefix_ref_node = l }

  abbrev attrs' : Heap AttrNode
  attrs' = store attrs a changed

  -- A node of the changed heap has the contents of the node that was there.
  before :
      (b : ℕ) (m : AttrNode)
      → load attrs' b ≡ some m
      → (k : AttrNode) × (load attrs b ≡ some k)
        × (m ≡ record k { ref_count = m.ref_count; prefix_ref_node = m.prefix_ref_node })
  before b m get = elim (load-store_back attrs a b n changed m at get) [
    | inl (e, same) ↦ (n, rw e at, rw same refl)
    | inr (ne, old) ↦ (m, old, refl)
  ]

  still : (b : ℕ) (k : AttrNode) → load attrs b ≡ some k → (m : AttrNode) × (load attrs' b ≡ some m)
  still b k get = elim (ℕ_discrete b a) [
    | yes e ↦ (changed, rw e (load-store_self attrs a n changed at))
    | no ne ↦ (k, load-store_ne attrs a b changed ne ∙ get)
  ]

  home_kept : (b i : ℕ) → attr_home (load attrs' b) i ≡ attr_home (load attrs b) i
  home_kept b i = elim (ℕ_discrete b a) [
    | yes e ↦ rw (e, load-store_self attrs a n changed at, at) refl
    | no ne ↦ rw (load-store_ne attrs a b changed ne) refl
  ]

  none_before : (b : ℕ) → load attrs' b ≡ none → load attrs b ≡ none
  none_before b gone = elim (ℕ_discrete b a) [
    | yes e ↦ absurd (let here = load-store_self attrs a n changed at in cc)
    | no ne ↦ sym (load-store_ne attrs a b changed ne) ∙ gone
  ]

  none_after : (b : ℕ) → load attrs b ≡ none → load attrs' b ≡ none
  none_after b gone = elim (ℕ_discrete b a) [
    | yes e ↦ absurd (cc)
    | no ne ↦ load-store_ne attrs a b changed ne ∙ gone
  ]

  new_refs :
      (b : ℕ) (m : AttrNode)
      → load attrs' b ≡ some m
      → (x : ℕ) → occurs x m.prefix_ref_node ≡ points (load h' x) b
  new_refs b m get x = elim (load-store_back attrs a b n changed m at get) [
    | inl (e, same) ↦ rw (e, same) (refs' x)
    | inr (ne, old) ↦ v.refs b m old x ∙ sym (points_ne b x ne)
  ]

  new_counts : (b : ℕ) (m : AttrNode) → load attrs' b ≡ some m → m.ref_count ≡ users h' b % 2 ^ 16
  new_counts b m get = elim (load-store_back attrs a b n changed m at get) [
    | inl (e, same) ↦ rw (e, same) counts'
    | inr (ne, old) ↦ v.counts b m old ∙ ap (λ u. u % 2 ^ 16) (sym (users_ne b ne))
  ]

  new_idle : (b : ℕ) → load attrs' b ≡ none → users h' b ≡ 0
  new_idle b gone = elim (ℕ_discrete b a) [
    | yes e ↦ absurd (let old = none_before b gone in cc)
    | no ne ↦ users_ne b ne ∙ v.idle b (none_before b gone)
  ]

  sharers_kept : (p : ℕ) → sharers attrs' p ≡ sharers attrs p
  sharers_kept p =
      let same = count_if-store (λ k. k.as_path == p) attrs a n changed at in omega arith

  pub rereference : AttrSide h' next attrs' paths t
  rereference = record {
    next_attr = λ b le. none_after b (v.next_attr b le);
    next_path = v.next_path;
    unique_attr = store-Unique attrs a changed v.unique_attr;
    unique_path = v.unique_path;
    chain = λ i b. v.chain i b ∙ sym (home_kept b i);
    refs = new_refs;
    counts = new_counts;
    idle = new_idle;
    live = λ x m get. still m.data_attr ((live' x m get).0) ((live' x m get).1);
    bucket = λ b m get. let (k, old, same) = before b m get in rw same (v.bucket b k old);
    path_count = λ p q get. v.path_count p q get ∙ ap (λ u. u % 2 ^ 32) (sym (sharers_kept p));
    ids = v.ids;
    sized = λ b m get. let (k, old, same) = before b m get in rw same (v.sized b k old);
    distinct = λ b d m k p q get_m get_k.
        let (m', old_m, same_m) = before b m get_m in
        let (k', old_k, same_k) = before d k get_k in
        rw (same_m, same_k) (v.distinct b d m' k' p q old_m old_k);
  }
