-- ===== src/Labeling/Inv/Walk.antt =====
-- The walk along a bucket of the prefix table (Labeling/rtable.c).
use native.Mathlib.Decide.{ℕ_discrete}
use bgpmon.Base.{
  ℕ, ◌/◌, ◌<◌, ◌≡◌, ◌≢◌, ◌%◌, refl, sym, ap, ◌∙◌, true, false, List, [], ◌∷◌, Option, none, some,
  arith, ◌==◌, if_elim, inl, inr, ◌⊎◌, Result, ok, Option-cases,
}
use bgpmon.Labeling.Heap.{Heap, one, load, occurs}
use bgpmon.Labeling.Heaps.{eq_self, eq_ne}
use bgpmon.Labeling.Hash.{prefix_hash}
use bgpmon.Labeling.State.{Prefix, PrefixNode, Table, prefix_bytes, same_bytes}
use bgpmon.Labeling.Prefixes.{find_prefix}
use bgpmon.Labeling.View.{same_bytes_self, same_bytes_sound}
use bgpmon.Labeling.Inv.{PrefixSide, prefix_home}

abbrev rest_of : List ℕ → List ℕ
rest_of [] = []
rest_of (x ∷ xs) = xs

abbrev first_of : List ℕ → ℕ
first_of [] = 0
first_of (x ∷ xs) = x

-- The bytes of a prefix determine it.
pub prefix_bytes_injective : (p q : Prefix) → prefix_bytes p ≡ prefix_bytes q → p ≡ q
prefix_bytes_injective p q e =
    let low : p.afi % 256 ≡ q.afi % 256 = ap first_of e in
    let high : p.afi / 256 ≡ q.afi / 256 = ap (λ l. first_of (rest_of l)) e in
    let afi : p.afi ≡ q.afi = omega (arith, low, high) in
    let safi : p.safi ≡ q.safi = ap (λ l. first_of (rest_of (rest_of l))) e in
    let p_len : p.p_len ≡ q.p_len = ap (λ l. first_of (rest_of (rest_of (rest_of l)))) e in
    let paddr : p.paddr ≡ q.paddr = ap (λ l. rest_of (rest_of (rest_of (rest_of l)))) e in
    λ i. record { afi = afi i; safi = safi i; p_len = p_len i; paddr = paddr i }

module _ (h : Heap PrefixNode) (p : Prefix) where
  -- A prefix is found where a node of the bucket has it, and nowhere else.
  abbrev pub Found : List ℕ → Result (Option ℕ) → Type 0
  Found xs s =
      ((x : ℕ) × (m : PrefixNode) × (s ≡ ok (some x)) × (load h x ≡ some m) × (m.key_prefix ≡ p))
      ⊎ ((s ≡ ok none)
          × ((x : ℕ) (m : PrefixNode) → 0 < occurs x xs → load h x ≡ some m → m.key_prefix ≢ p))

  extend :
      (y : ℕ) (k : PrefixNode) (xs : List ℕ) (s : Result (Option ℕ))
      → load h y ≡ some k
      → k.key_prefix ≢ p
      → Found xs s
      → Found (y ∷ xs) s
  extend y k xs s get other (inl found) = inl found
  extend y k xs s get other (inr (e, none_of)) = inr (
    e,
    λ x m there get_x. elim (ℕ_discrete x y) [
      | yes q ↦ λ same.
          let k_is : m ≡ k = let both = ap (load h) q in cc in
          other (ap (λ z. z.key_prefix) (sym k_is) ∙ same)
      | no ne ↦ none_of x m (omega (arith, there, ap one (eq_ne x y ne))) get_x
    ],
  )

  walk_lem :
      (xs : List ℕ) → ((x : ℕ) → 0 < occurs x xs → load h x ≢ none) → Found xs (find_prefix h xs p)
  unfolding find_prefix
  walk_lem [] live = inr (refl, λ x m there. absurd (omega (arith, there)))
  walk_lem (y ∷ ys) live = elim (Option-cases (load h y)) [
    | inl gone ↦ absurd (live y (omega (arith, ap one (eq_self y))) gone)
    | inr (k, get) ↦
        let later : (x : ℕ) → 0 < occurs x ys → load h x ≢ none =
          λ x more. live x (omega (arith, more)) in
        rw get (
          if_elim (Found (y ∷ ys)) (same_bytes (prefix_bytes p) (prefix_bytes k.key_prefix))
            (λ t.
              let same = same_bytes_sound (prefix_bytes p) (prefix_bytes k.key_prefix) t in
              inl (y, k, refl, get, sym (prefix_bytes_injective p k.key_prefix same)))
            (λ f.
              let other : k.key_prefix ≢ p = λ e. absurd (
                let wrong : true ≡ false =
                  sym (same_bytes_self (prefix_bytes p))
                  ∙ ap (λ z. same_bytes (prefix_bytes p) (prefix_bytes z)) (sym e)
                  ∙ f in
                cc) in
              extend y k ys (find_prefix h ys p) get other (walk_lem ys later)))
  ]

module _ (next : ℕ) (h : Heap PrefixNode) (t : Table) (v : PrefixSide next h t) (p : Prefix) where
  abbrev pub walk : Result (Option ℕ)
  walk = find_prefix h (t.entries (prefix_hash (prefix_bytes p) t.table_size)).node p

  abbrev i : ℕ
  i = prefix_hash (prefix_bytes p) t.table_size

  live : (x : ℕ) → 0 < occurs x (t.entries i).node → load h x ≢ none
  live x there gone =
      absurd (omega (arith, there, v.chain i x, ap (λ o. prefix_home t.table_size o i) gone))

  in_bucket :
      (x : ℕ) (m : PrefixNode)
      → load h x ≡ some m
      → m.key_prefix ≡ p
      → 0 < occurs x (t.entries i).node
  in_bucket x m get e =
      let here : prefix_home t.table_size (load h x) i ≡ 1 =
        ap (λ o. prefix_home t.table_size o i) get
        ∙ ap (λ z. one (prefix_hash (prefix_bytes z) t.table_size == i)) e
        ∙ ap one (eq_self i) in
      omega (arith, v.chain i x, here)

  -- Whether some node has the prefix, and then which.
  pub find_prefix_lem :
      ((x : ℕ) × (m : PrefixNode) × (walk ≡ ok (some x)) × (load h x ≡ some m) × (m.key_prefix ≡ p))
      ⊎ ((walk ≡ ok none) × ((x : ℕ) (m : PrefixNode) → load h x ≡ some m → m.key_prefix ≢ p))
  find_prefix_lem = elim (walk_lem h p (t.entries i).node live) [
    | inl found ↦ inl found
    | inr (e, none_of) ↦ inr (e, λ x m get same. none_of x m (in_bucket x m get same) get same)
  ]

  pub find_prefix_at :
      (x : ℕ) (m : PrefixNode) → load h x ≡ some m → m.key_prefix ≡ p → walk ≡ ok (some x)
  find_prefix_at x m get e = elim find_prefix_lem [
    | inl (y, k, found, get_y, e') ↦
        found ∙ ap (λ z. ok (some z)) (v.keys y x k m get_y get (e' ∙ sym e))
    | inr (missing, none_of) ↦ absurd (none_of x m get e)
  ]

  pub find_prefix_absent :
      ((x : ℕ) (m : PrefixNode) → load h x ≡ some m → m.key_prefix ≢ p) → walk ≡ ok none
  find_prefix_absent none_of = elim find_prefix_lem [
    | inl (y, k, found, get_y, e) ↦ absurd (none_of y k get_y e)
    | inr (missing, _) ↦ missing
  ]
