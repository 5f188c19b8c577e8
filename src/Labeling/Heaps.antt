-- ===== src/Labeling/Heaps.antt =====
-- Lemmas on allocated structures and address lists.
use native.Mathlib.Decide.{ℕ_discrete}
use bgpmon.Base.{
  ℕ, ◌+◌, ◌≤◌, ◌<◌, ◌≡◌, ◌≢◌, refl, sym, ap, ◌∙◌, Bool, true, false, List, [], ◌∷◌, none, some,
  arith, ◌==◌, length, inl, inr, ◌⊎◌,
}
use bgpmon.Labeling.Heap.{Heap, one, load, store, free, count_if, Unique, occurs, erase}

pub eq_self : (a : ℕ) → (a == a) ≡ true
eq_self a = ground arith

pub eq_ne : (a b : ℕ) → a ≢ b → (a == b) ≡ false
eq_ne a b ne = ground arith

pub one_le : (b : Bool) → one b ≤ 1
one_le true = omega arith
one_le false = omega arith

module _ {ℓ} {A : Type ℓ} where
  pub load-new_self : (h : Heap A) (a : ℕ) (v : A) → load ((a, v) ∷ h) a ≡ some v
  load-new_self h a v = ground arith

  pub load-new_ne : (h : Heap A) (a b : ℕ) (v : A) → b ≢ a → load ((a, v) ∷ h) b ≡ load h b
  load-new_ne h a b v ne = ground arith

  pub load-store_self :
      (h : Heap A) (a : ℕ) (v w : A) → load h a ≡ some v → load (store h a w) a ≡ some w
  load-store_self [] a v w at = cc
  load-store_self ((b, u) ∷ h) a v w at = let rest = load-store_self h a v w in ground arith

  pub load-store_ne : (h : Heap A) (a b : ℕ) (w : A) → b ≢ a → load (store h a w) b ≡ load h b
  load-store_ne [] a b w ne = refl
  load-store_ne ((c, u) ∷ h) a b w ne = let rest = load-store_ne h a b w ne in ground arith

  pub load-free_ne : (h : Heap A) (a b : ℕ) → b ≢ a → load (free h a) b ≡ load h b
  load-free_ne [] a b ne = refl
  load-free_ne ((c, u) ∷ h) a b ne = let rest = load-free_ne h a b ne in ground arith

  pub load-free_self : (h : Heap A) (a : ℕ) → Unique h → load (free h a) a ≡ none
  load-free_self [] a d = refl
  load-free_self ((c, u) ∷ h) a d =
      let rest = load-free_self h a d.1 in let first = d.0 in ground arith

  pub store-Unique : (h : Heap A) (a : ℕ) (w : A) → Unique h → Unique (store h a w)
  store-Unique [] a w d = d
  store-Unique ((c, u) ∷ h) a w d = elim (ℕ_discrete a c) [
    | yes e ↦ rw (e, eq_self c) d
    | no ne ↦
        rw (eq_ne a c ne) (load-store_ne h a c w (λ e. ne (sym e)) ∙ d.0, store-Unique h a w d.1)
  ]

  pub free-Unique : (h : Heap A) (a : ℕ) → Unique h → Unique (free h a)
  free-Unique [] a d = d
  free-Unique ((c, u) ∷ h) a d = elim (ℕ_discrete a c) [
    | yes e ↦ rw (e, eq_self c) d.1
    | no ne ↦ rw (eq_ne a c ne) (load-free_ne h a c (λ e. ne (sym e)) ∙ d.0, free-Unique h a d.1)
  ]

  pub count_if-store :
      (f : A → Bool) (h : Heap A) (a : ℕ) (v w : A)
      → load h a ≡ some v
      → count_if f (store h a w) + one (f v) ≡ count_if f h + one (f w)
  count_if-store f [] a v w at = cc
  count_if-store f ((c, u) ∷ h) a v w at = let rest = count_if-store f h a v w in ground arith

  pub count_if-free :
      (f : A → Bool) (h : Heap A) (a : ℕ) (v : A)
      → load h a ≡ some v
      → count_if f (free h a) + one (f v) ≡ count_if f h
  count_if-free f [] a v at = cc
  count_if-free f ((c, u) ∷ h) a v at = let rest = count_if-free f h a v in ground arith

  pub count_if-one :
      (f : A → Bool) (h : Heap A) (a : ℕ) (v : A) → load h a ≡ some v → one (f v) ≤ count_if f h
  count_if-one f h a v at = omega (arith, count_if-free f h a v at)

  pub count_if-length : (f : A → Bool) (h : Heap A) → count_if f h ≤ length h
  count_if-length f [] = omega arith
  count_if-length f ((c, u) ∷ h) = omega (arith, count_if-length f h, one_le (f u))

pub occurs-erase_self :
    (xs : List ℕ) (x : ℕ) → 0 < occurs x xs → occurs x (erase xs x) + 1 ≡ occurs x xs
occurs-erase_self [] x h = absurd (omega arith)
occurs-erase_self (y ∷ ys) x h = let rest = occurs-erase_self ys x in ground arith

pub occurs-erase_ne : (xs : List ℕ) (x y : ℕ) → y ≢ x → occurs y (erase xs x) ≡ occurs y xs
occurs-erase_ne [] x y ne = refl
occurs-erase_ne (z ∷ zs) x y ne = let rest = occurs-erase_ne zs x y ne in ground arith

module _ {ℓ} {A : Type ℓ} where
  pub store-store : (h : Heap A) (a : ℕ) (v w : A) → store (store h a v) a w ≡ store h a w
  store-store [] a v w = refl
  store-store ((b, u) ∷ h) a v w = let rest = store-store h a v w in ground arith

  -- What is allocated after a write was allocated before it.
  pub load-store_back :
      (h : Heap A) (a b : ℕ) (v w u : A)
      → load h a ≡ some v
      → load (store h a w) b ≡ some u
      → ((b ≡ a) × (u ≡ w)) ⊎ ((b ≢ a) × (load h b ≡ some u))
  load-store_back h a b v w u at get = elim (ℕ_discrete b a) [
    | yes e ↦ inl (e, let here = load-store_self h a v w at in cc)
    | no ne ↦ inr (ne, sym (load-store_ne h a b w ne) ∙ get)
  ]

  pub load-new_back :
      (h : Heap A) (a b : ℕ) (w u : A)
      → load ((a, w) ∷ h) b ≡ some u
      → ((b ≡ a) × (u ≡ w)) ⊎ ((b ≢ a) × (load h b ≡ some u))
  load-new_back h a b w u get = elim (ℕ_discrete b a) [
    | yes e ↦ inl (e, let here = load-new_self h a w in cc)
    | no ne ↦ inr (ne, sym (load-new_ne h a b w ne) ∙ get)
  ]

  pub load-free_back :
      (h : Heap A) (a b : ℕ) (u : A)
      → Unique h
      → load (free h a) b ≡ some u
      → (b ≢ a) × (load h b ≡ some u)
  load-free_back h a b u d get = elim (ℕ_discrete b a) [
    | yes e ↦ absurd (let gone = load-free_self h a d in cc)
    | no ne ↦ (ne, sym (load-free_ne h a b ne) ∙ get)
  ]

  pub count_if-none :
      (f : A → Bool) (h : Heap A)
      → Unique h
      → ((a : ℕ) (v : A) → load h a ≡ some v → f v ≡ false)
      → count_if f h ≡ 0
  count_if-none f [] d never = refl
  count_if-none f ((b, u) ∷ h) d never = omega (
    arith,
    ap one (never b u (load-new_self h b u)),
    count_if-none f h d.1 (λ a v get.
        let ne : a ≢ b = λ e. let first = d.0 in cc in never a v (load-new_ne h b a u ne ∙ get)),
  )

  pub length-store : (h : Heap A) (a : ℕ) (w : A) → length (store h a w) ≡ length h
  length-store [] a w = refl
  length-store ((b, u) ∷ h) a w = let rest = length-store h a w in ground arith

  pub length-free : (h : Heap A) (a : ℕ) → length (free h a) ≤ length h
  length-free [] a = omega arith
  length-free ((b, u) ∷ h) a = let rest = length-free h a in ground arith
