-- ===== src/Bgp/Written.antt =====
-- What the writing of bytes into a message makes of it (Util/bgp.c).
use mathlib.Core.List.{append_assoc}
use bgpmon.Base.{
  ℕ, suc, ◌+◌, ◌-◌, ◌≡◌, refl, sym, ap, ◌∙◌, List, [], ◌∷◌, ◌++◌, false, ltb, length, Result, ok,
  ◌>>=◌, replicate, arith, le→ltb, length-append, length-replicate,
}
use bgpmon.Bgp.Serial.{Bits, overwrite, put, forward, emit, two_bytes, section}

overwrite_lem :
    (pre xs post ys : List ℕ)
    → length xs ≡ length ys
    → overwrite (pre ++ (xs ++ post)) (length pre) ys ≡ pre ++ (ys ++ post)
overwrite_lem [] [] [] [] e = refl
overwrite_lem [] [] (x ∷ post) [] e = refl
overwrite_lem [] [] post (y ∷ ys) e = absurd (omega (arith, e))
overwrite_lem [] (x ∷ xs) post [] e = absurd (omega (arith, e))
overwrite_lem [] (x ∷ xs) post (y ∷ ys) e =
    ap (◌∷◌ y) (overwrite_lem [] xs post ys (omega (arith, e)))
overwrite_lem (p ∷ pre) [] post [] e = refl
overwrite_lem (p ∷ pre) (x ∷ xs) post [] e = absurd (omega (arith, e))
overwrite_lem (p ∷ pre) xs post (y ∷ ys) e = ap (◌∷◌ p) (overwrite_lem pre xs post (y ∷ ys) e)

put_lem :
    (pre xs post ys : List ℕ) (i : ℕ)
    → length xs ≡ length ys
    → put (length pre) ys (record { bits = pre ++ (xs ++ post); i = i })
      ≡ ok (record { bits = pre ++ (ys ++ post); i = i })
unfolding put
put_lem pre xs post ys i e =
    let room : ltb (length (pre ++ (xs ++ post))) (length pre + length ys) ≡ false =
      le→ltb (length (pre ++ (xs ++ post))) (length pre + length ys)
        (omega (arith, e, length-append pre (xs ++ post), length-append xs post)) in
    rw room (ap (λ z. ok (record { bits = z; i = i })) (overwrite_lem pre xs post ys e))

abbrev pub blank : ℕ → List ℕ
blank n = replicate n 0

-- What is written, with room for n more bytes.
abbrev pub at : List ℕ → ℕ → Bits
at pre n = record { bits = pre ++ blank n; i = length pre }

blank-add : (bs : List ℕ) (n : ℕ) → blank (length bs + n) ≡ blank (length bs) ++ blank n
blank-add [] n = ap (λ z. blank z) (omega arith)
blank-add (b ∷ bs) n =
    let more : suc (length bs) + n ≡ suc (length bs + n) = omega arith in
    ap (λ z. blank z) more ∙ ap (◌∷◌ 0) (blank-add bs n)

pub emit_lem :
    (pre bs : List ℕ) (n m : ℕ) → m ≡ length bs + n → emit bs (at pre m) ≡ ok (at (pre ++ bs) n)
emit_lem pre bs n m e =
    let full : blank m ≡ blank (length bs) ++ blank n = ap (λ z. blank z) e ∙ blank-add bs n in
    rw
      (
        full,
        put_lem pre (blank (length bs)) (blank n) bs (length pre) (length-replicate (length bs) 0),
      )
      (λ j.
        ok (record {
          bits = sym (append_assoc pre bs (blank n)) j;
          i = sym (length-append pre bs) j;
        }))

pub section_lem :
    (f : Bits → Result Bits) (pre w : List ℕ) (n m : ℕ)
    → m ≡ 2 + (length w + n)
    → f (at (pre ++ (0 ∷ 0 ∷ [])) (length w + n)) ≡ ok (at ((pre ++ (0 ∷ 0 ∷ [])) ++ w) n)
    → section f (at pre m) ≡ ok (at (pre ++ (two_bytes (length w) ++ w)) n)
unfolding section
section_lem f pre w n m e run =
    let room : ℕ = length w + n in
    let head : List ℕ = pre ++ (0 ∷ 0 ∷ []) in
    let full : blank m ≡ (0 ∷ 0 ∷ []) ++ blank room =
      ap (λ z. blank z) e ∙ blank-add (0 ∷ 0 ∷ []) room in
    let start : forward 2 (at pre m) ≡ at head room = λ j. record {
      bits = (ap (◌++◌ pre) full ∙ sym (append_assoc pre (0 ∷ 0 ∷ []) (blank room))) j;
      i = sym (length-append pre (0 ∷ 0 ∷ [])) j;
    } in
    let long : length (head ++ w) ≡ length pre + 2 + length w =
      omega (arith, length-append head w, length-append pre (0 ∷ 0 ∷ [])) in
    let number : length (head ++ w) - length pre - 2 ≡ length w = omega (arith, long) in
    let bits : (head ++ w) ++ blank n ≡ pre ++ ((0 ∷ 0 ∷ []) ++ (w ++ blank n)) =
      append_assoc head w (blank n) ∙ append_assoc pre (0 ∷ 0 ∷ []) (w ++ blank n) in
    let two : List ℕ = two_bytes (length w) in
    let same : length (head ++ w) ≡ length (pre ++ (two ++ w)) =
      omega (arith, long, length-append pre (two ++ w), length-append two w) in
    ap (λ s. f s >>= λ s'. put (length pre) (two_bytes (s'.i - length pre - 2)) s') start
    ∙ ap (λ r. r >>= λ s'. put (length pre) (two_bytes (s'.i - length pre - 2)) s') run
    ∙ ap (λ z. put (length pre) (two_bytes z) (at (head ++ w) n)) number
    ∙ ap (λ z. put (length pre) two (record { bits = z; i = length (head ++ w) })) bits
    ∙ put_lem pre (0 ∷ 0 ∷ []) (w ++ blank n) two (length (head ++ w)) refl
    ∙ (λ j. ok (record { bits = sym (append_assoc pre (two ++ w) (blank n)) j; i = same j }))
