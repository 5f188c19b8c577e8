-- ===== src/Labeling/Encoded.antt =====
-- Streams that hold given bytes, and the encoding of the prefixes of an NLRI.
use bgpmon.Base.{
  ℕ, zero, suc, ◌+◌, ◌^◌, ◌≤◌, ◌<◌, ◌≡◌, refl, ap, ◌∙◌, List, [], ◌∷◌, ◌++◌, some, false, ltb,
  length, ok, arith, le→ltb, length-append,
}
use mathlib.Core.List.{append_assoc}
use bgpmon.Labeling.State.{Prefix, plus, prefix_size}
use bgpmon.Labeling.Stream.{
  Mstream, mstream_can_read, mstream_get, mstream_getc, mstream_current_address, bytes_of, drop,
  skip,
}

abbrev rest_of : List ℕ → List ℕ
rest_of [] = []
rest_of (x ∷ xs) = xs

drop_step : (m : List ℕ) (n x : ℕ) (l : List ℕ) → drop m n ≡ x ∷ l → drop m (suc n) ≡ l
drop_step [] zero x l e = absurd (cc)
drop_step (y ∷ m) zero x l e = ap rest_of e
drop_step [] (suc n) x l e = absurd (cc)
drop_step (y ∷ m) (suc n) x l e = drop_step m n x l e

pub drop-append : (m xs ys : List ℕ) (n : ℕ) → drop m n ≡ xs ++ ys → drop m (n + length xs) ≡ ys
drop-append m [] ys n e = ap (drop m) (omega arith) ∙ e
drop-append m (x ∷ xs) ys n e =
    let here : n + length (x ∷ xs) ≡ suc n + length xs = omega arith in
    ap (drop m) here ∙ drop-append m xs ys (suc n) (drop_step m n x (xs ++ ys) e)

pub bytes_of-append : (xs ys : List ℕ) → bytes_of (xs ++ ys) (length xs) ≡ some xs
bytes_of-append [] ys = refl
bytes_of-append (x ∷ xs) ys = rw (bytes_of-append xs ys) refl

-- The bytes that a stream has yet to give, followed by other memory.
pub record Holds (s : Mstream) (bytes rest : List ℕ) : Type 0 where
  pub at : mstream_current_address s ≡ bytes ++ rest
  pub ends : s.position + length bytes ≡ s.len
  pub fits : s.len < 2 ^ 16

pub can_read_lem :
    (s : Mstream) (bytes rest : List ℕ) → Holds s bytes rest → mstream_can_read s ≡ length bytes
can_read_lem s bytes rest h = omega (arith, h.ends, h.fits)

pub getc_lem :
    (s : Mstream) (b : ℕ) (bytes rest : List ℕ)
    → Holds s (b ∷ bytes) rest
    → mstream_getc s ≡ ok (some (b, skip 1 s))
unfolding mstream_getc mstream_get
getc_lem s b bytes rest h =
    let room : ltb (mstream_can_read s) 1 ≡ false =
      le→ltb (mstream_can_read s) 1 (omega (arith, can_read_lem s (b ∷ bytes) rest h)) in
    rw (room, h.at) refl

pub skip_lem :
    (s : Mstream) (xs ys rest : List ℕ)
    → Holds s (xs ++ ys) rest
    → Holds (skip (length xs) s) ys rest
skip_lem s xs ys rest h = record {
  at =
      let fits : s.position + length xs < 2 ^ 16 =
        omega (arith, h.ends, h.fits, length-append xs ys) in
      let same : plus 16 s.position (length xs) ≡ s.position + length xs = omega arith in
      ap (drop s.start) same
      ∙ drop-append s.start xs (ys ++ rest) s.position (h.at ∙ append_assoc xs ys rest);
  ends = omega (arith, h.ends, h.fits, length-append xs ys);
  fits = h.fits;
}

pub bytes_lem :
    (s : Mstream) (xs ys rest : List ℕ)
    → Holds s (xs ++ ys) rest
    → bytes_of (mstream_current_address s) (length xs) ≡ some xs
bytes_lem s xs ys rest h = rw (h.at, append_assoc xs ys rest) (bytes_of-append xs (ys ++ rest))

-- The prefixes of an NLRI one after the other, each its length and its bytes.
abbrev pub encode : List Prefix → List ℕ
encode [] = []
encode (p ∷ ps) = p.p_len ∷ (p.paddr ++ encode ps)

-- A prefix of an address family that an NLRI can hold.
pub record IsIn (afi safi : ℕ) (p : Prefix) : Type 0 where
  pub same_afi : p.afi ≡ afi
  pub same_safi : p.safi ≡ safi
  pub small : p.p_len < 256
  pub whole : length p.paddr ≡ prefix_size p.p_len

abbrev pub AllIn : ℕ → ℕ → List Prefix → Type 0
AllIn afi safi [] = Unit {0}
AllIn afi safi (p ∷ ps) = IsIn afi safi p × AllIn afi safi ps

pub prefix_size_le : (n : ℕ) → n < 256 → prefix_size n ≤ 32
prefix_size_le n lt = ground arith
