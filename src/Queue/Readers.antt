-- ===== src/Queue/Readers.antt =====
-- The reader table of Queues/queueinternal.h (`nextItem`): who still waits for which position.
use native.Mathlib.Decide.{dec_le}
use bgpmon.Base.{
  ℕ, zero, suc, ◌+◌, ◌≤◌, ◌<◌, ◌≡◌, refl, ◌≢◌, List, [], ◌∷◌, Option, none, some, arith, leb,
  if◌then◌else◌, length, get_elem?, set, replicate,
}

-- The readers whose next position is `k` or before: those that have yet to read item `k`.
abbrev pub below : List (Option ℕ) → ℕ → ℕ
below [] k = 0
below (none ∷ l) k = below l k
below (some p ∷ l) k = (if leb p k then 1 else 0) + below l k

abbrev pub active : List (Option ℕ) → ℕ
active [] = 0
active (none ∷ l) = active l
active (some p ∷ l) = 1 + active l

abbrev pub Within : ℕ → ℕ → List (Option ℕ) → Type 0
Within h t [] = Unit {0}
Within h t (none ∷ l) = Within h t l
Within h t (some p ∷ l) = (h ≤ p) × (p ≤ t) × Within h t l

pub Within-get :
    (h t : ℕ) (l : List (Option ℕ)) (r p : ℕ)
    → Within h t l
    → get_elem? l r ≡ some (some p)
    → (h ≤ p) × (p ≤ t)
Within-get h t [] r p w e = cc
Within-get h t (none ∷ l) zero p w e = cc
Within-get h t (some q ∷ l) zero p w e = ground arith
Within-get h t (none ∷ l) (suc r) p w e = Within-get h t l r p w e
Within-get h t (some q ∷ l) (suc r) p w e = Within-get h t l r p w.2 e

pub Within-set :
    (h t : ℕ) (l : List (Option ℕ)) (r p : ℕ)
    → Within h t l
    → h ≤ p
    → p ≤ t
    → Within h t (set l r (some p))
Within-set h t [] r p w a b = tt
Within-set h t (none ∷ l) zero p w a b = (a, b, w)
Within-set h t (some q ∷ l) zero p w a b = (a, b, w.2)
Within-set h t (none ∷ l) (suc r) p w a b = Within-set h t l r p w a b
Within-set h t (some q ∷ l) (suc r) p w a b = (w.0, w.1, Within-set h t l r p w.2 a b)

pub Within-set-none :
    (h t : ℕ) (l : List (Option ℕ)) (r : ℕ) → Within h t l → Within h t (set l r none)
Within-set-none h t [] r w = tt
Within-set-none h t (none ∷ l) zero w = w
Within-set-none h t (some q ∷ l) zero w = w.2
Within-set-none h t (none ∷ l) (suc r) w = Within-set-none h t l r w
Within-set-none h t (some q ∷ l) (suc r) w = (w.0, w.1, Within-set-none h t l r w.2)

pub Within-mono : (h t u : ℕ) (l : List (Option ℕ)) → t ≤ u → Within h t l → Within h u l
Within-mono h t u [] le w = tt
Within-mono h t u (none ∷ l) le w = Within-mono h t u l le w
Within-mono h t u (some p ∷ l) le w = (w.0, omega arith, Within-mono h t u l le w.2)

-- When nobody waits for item `k`, every reader is past it.
pub Within-past :
    (h t k : ℕ) (l : List (Option ℕ)) → below l k ≡ 0 → Within h t l → Within (suc k) t l
Within-past h t k [] e w = tt
Within-past h t k (none ∷ l) e w = Within-past h t k l e w
Within-past h t k (some p ∷ l) e w = (ground arith, w.1, Within-past h t k l (ground arith) w.2)

pub below-le-active : (l : List (Option ℕ)) (k : ℕ) → below l k ≤ active l
below-le-active [] k = omega arith
below-le-active (none ∷ l) k = below-le-active l k
below-le-active (some p ∷ l) k = ground (arith, below-le-active l k)

pub active-le-length : (l : List (Option ℕ)) → active l ≤ length l
active-le-length [] = omega arith
active-le-length (none ∷ l) = omega (arith, active-le-length l)
active-le-length (some p ∷ l) = omega (arith, active-le-length l)

pub below_mono : (l : List (Option ℕ)) (j k : ℕ) → j ≤ k → below l j ≤ below l k
below_mono [] j k h = omega arith
below_mono (none ∷ l) j k h = below_mono l j k h
below_mono (some p ∷ l) j k h = ground (arith, below_mono l j k h)

-- Beyond the tail everybody waits.
pub below_tail : (h t k : ℕ) (l : List (Option ℕ)) → Within h t l → t ≤ k → below l k ≡ active l
below_tail h t k [] w e = refl
below_tail h t k (none ∷ l) w e = below_tail h t k l w e
below_tail h t k (some p ∷ l) w e = ground (arith, below_tail h t k l w.2 e)

-- A reader at `i` waits for `i` and for nothing before it.
pub below-lt :
    (l : List (Option ℕ)) (r i k : ℕ)
    → get_elem? l r ≡ some (some i)
    → k < i
    → below l k < below l i
below-lt [] r i k e h = cc
below-lt (none ∷ l) zero i k e h = cc
below-lt (some p ∷ l) zero i k e h = ground (arith, below_mono l k i)
below-lt (none ∷ l) (suc r) i k e h = below-lt l r i k e h
below-lt (some p ∷ l) (suc r) i k e h = ground (arith, below-lt l r i k e h)

pub below-pos : (l : List (Option ℕ)) (r i : ℕ) → get_elem? l r ≡ some (some i) → 0 < below l i
below-pos [] r i e = cc
below-pos (none ∷ l) zero i e = cc
below-pos (some p ∷ l) zero i e = ground arith
below-pos (none ∷ l) (suc r) i e = below-pos l r i e
below-pos (some p ∷ l) (suc r) i e = ground (arith, below-pos l r i e)

-- Somebody waits for item `k` only if some slot holds a position up to `k`.
pub below_witness :
    (l : List (Option ℕ)) (k : ℕ)
    → 0 < below l k
    → (r : ℕ) × (p : ℕ) × (get_elem? l r ≡ some (some p)) × (p ≤ k) × (r < length l)
below_witness [] k h = absurd (omega arith)
below_witness (none ∷ l) k h =
    let (r, p, e, le, lt) = below_witness l k h in (suc r, p, e, le, omega arith)
below_witness (some q ∷ l) k h = elim (dec_le q k) [
  | yes le ↦ (0, q, refl, le, omega arith)
  | no gt ↦
      let (r, p, e, le, lt) = below_witness l k (ground arith) in (suc r, p, e, le, omega arith)
]

-- One step of one reader.
pub below-step_ne :
    (l : List (Option ℕ)) (r i k : ℕ)
    → get_elem? l r ≡ some (some i)
    → k ≢ i
    → below (set l r (some (suc i))) k ≡ below l k
below-step_ne [] r i k e h = refl
below-step_ne (none ∷ l) zero i k e h = cc
below-step_ne (some p ∷ l) zero i k e h = ground arith
below-step_ne (none ∷ l) (suc r) i k e h = below-step_ne l r i k e h
below-step_ne (some p ∷ l) (suc r) i k e h = ground (arith, below-step_ne l r i k e h)

pub below-step_self :
    (l : List (Option ℕ)) (r i : ℕ)
    → get_elem? l r ≡ some (some i)
    → below (set l r (some (suc i))) i + 1 ≡ below l i
below-step_self [] r i e = cc
below-step_self (none ∷ l) zero i e = cc
below-step_self (some p ∷ l) zero i e = ground arith
below-step_self (none ∷ l) (suc r) i e = below-step_self l r i e
below-step_self (some p ∷ l) (suc r) i e = ground (arith, below-step_self l r i e)

pub active-step :
    (l : List (Option ℕ)) (r p q : ℕ)
    → get_elem? l r ≡ some (some p)
    → active (set l r (some q)) ≡ active l
active-step [] r p q e = refl
active-step (none ∷ l) zero p q e = cc
active-step (some x ∷ l) zero p q e = refl
active-step (none ∷ l) (suc r) p q e = active-step l r p q e
active-step (some x ∷ l) (suc r) p q e = omega (arith, active-step l r p q e)

-- A reader leaves.
pub below-leave :
    (l : List (Option ℕ)) (r p k : ℕ)
    → get_elem? l r ≡ some (some p)
    → k < p
    → below (set l r none) k ≡ below l k
below-leave [] r p k e h = refl
below-leave (none ∷ l) zero p k e h = cc
below-leave (some x ∷ l) zero p k e h = ground arith
below-leave (none ∷ l) (suc r) p k e h = below-leave l r p k e h
below-leave (some x ∷ l) (suc r) p k e h = ground (arith, below-leave l r p k e h)

pub active-leave :
    (l : List (Option ℕ)) (r p : ℕ)
    → get_elem? l r ≡ some (some p)
    → active (set l r none) + 1 ≡ active l
active-leave [] r p e = cc
active-leave (none ∷ l) zero p e = cc
active-leave (some x ∷ l) zero p e = omega arith
active-leave (none ∷ l) (suc r) p e = active-leave l r p e
active-leave (some x ∷ l) (suc r) p e = omega (arith, active-leave l r p e)

-- A reader joins at `p`.
pub below-join :
    (l : List (Option ℕ)) (r p k : ℕ)
    → get_elem? l r ≡ some none
    → below (set l r (some p)) k ≡ (if leb p k then 1 else 0) + below l k
below-join [] r p k e = cc
below-join (none ∷ l) zero p k e = refl
below-join (some x ∷ l) zero p k e = cc
below-join (none ∷ l) (suc r) p k e = below-join l r p k e
below-join (some x ∷ l) (suc r) p k e = ground (arith, below-join l r p k e)

pub active-join :
    (l : List (Option ℕ)) (r p : ℕ)
    → get_elem? l r ≡ some none
    → active (set l r (some p)) ≡ active l + 1
active-join [] r p e = cc
active-join (none ∷ l) zero p e = omega arith
active-join (some x ∷ l) zero p e = cc
active-join (none ∷ l) (suc r) p e = active-join l r p e
active-join (some x ∷ l) (suc r) p e = omega (arith, active-join l r p e)

pub active-replicate : (n : ℕ) → active (replicate n none) ≡ 0
active-replicate zero = refl
active-replicate (suc n) = active-replicate n

pub Within-replicate : (h t n : ℕ) → Within h t (replicate n none)
Within-replicate h t zero = tt
Within-replicate h t (suc n) = Within-replicate h t n
