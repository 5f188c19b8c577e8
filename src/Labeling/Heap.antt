-- ===== src/Labeling/Heap.antt =====
-- The allocated structures of one type, by address: what malloc, free, reads and writes through a
-- pointer do in Labeling/rtable.c. A linked list of structures is the list of their addresses.

use bgpmon.Base.{
  ℕ, ◌+◌, ◌≡◌, Bool, true, false, List, [], ◌∷◌, Option, none, some, if◌then◌else◌, ◌==◌,
}

abbrev pub Heap {ℓ} : Type ℓ → Type ℓ
Heap A = List (ℕ × A)

abbrev pub one : Bool → ℕ
one true = 1
one false = 0

module _ {ℓ} {A : Type ℓ} where
  abbrev pub load : Heap A → ℕ → Option A
  load [] a = none
  load ((b, v) ∷ h) a = if a == b then some v else load h a

  abbrev pub store : Heap A → ℕ → A → Heap A
  store [] a w = []
  store ((b, v) ∷ h) a w = if a == b then (b, w) ∷ h else (b, v) ∷ store h a w

  abbrev pub free : Heap A → ℕ → Heap A
  free [] a = []
  free ((b, v) ∷ h) a = if a == b then h else (b, v) ∷ free h a

  abbrev pub count_if : (A → Bool) → Heap A → ℕ
  count_if f [] = 0
  count_if f ((b, v) ∷ h) = one (f v) + count_if f h

  -- No address is allocated twice.
  abbrev pub Unique : Heap A → Type ℓ
  Unique [] = Unit {ℓ}
  Unique ((b, v) ∷ h) = (load h b ≡ none) × Unique h

abbrev pub occurs : ℕ → List ℕ → ℕ
occurs x [] = 0
occurs x (y ∷ ys) = one (x == y) + occurs x ys

-- The list without the first x, as the code unlinks a node.
abbrev pub erase : List ℕ → ℕ → List ℕ
erase [] x = []
erase (y ∷ ys) x = if x == y then ys else y ∷ erase ys x
