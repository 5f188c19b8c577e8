-- ===== src/Labeling/Stream.antt =====
-- The byte streams of Labeling/labelutils.c.
use bgpmon.Base.{
  ℕ, zero, suc, ◌+◌, ◌*◌, List, [], ◌∷◌, ◌++◌, Option, none, some, ltb, length, if◌then◌else◌,
  Result, ok, out_of_bounds, or_fault, ◌>>=◌,
}
use bgpmon.Labeling.State.{plus, minus}

-- The memory from the start of the stream on, of which the stream may end before the end.
pub record Mstream : Type 0 where
  pub start : List ℕ
  pub position : ℕ
  pub len : ℕ

abbrev pub mstream_init : List ℕ → ℕ → Mstream
mstream_init memory len = record { start = memory; position = 0; len = len }

-- len - position, as unsigned numbers of 32 bits.
abbrev pub mstream_can_read : Mstream → ℕ
mstream_can_read s = minus 32 s.len s.position

-- n bytes of memory, if it has as many.
abbrev pub bytes_of : List ℕ → ℕ → Option (List ℕ)
bytes_of m zero = some []
bytes_of [] (suc n) = none
bytes_of (b ∷ m) (suc n) = cons b (bytes_of m n)
  where
    cons : ℕ → Option (List ℕ) → Option (List ℕ)
    cons b none = none
    cons b (some bs) = some (b ∷ bs)

abbrev pub drop : List ℕ → ℕ → List ℕ
drop m zero = m
drop [] (suc n) = []
drop (b ∷ m) (suc n) = drop m n

abbrev pub mstream_current_address : Mstream → List ℕ
mstream_current_address s = drop s.start s.position

abbrev pub skip : ℕ → Mstream → Mstream
skip n s = record s { position = plus 16 s.position n }

-- None stands for the return value 1.
unfoldable pub mstream_get : Mstream → ℕ → Result (Option (List ℕ × Mstream))
mstream_get s n =
    let read = or_fault (bytes_of (mstream_current_address s) n) out_of_bounds >>= λ bs.
    ok (some (bs, skip n s)) in
    if ltb (mstream_can_read s) n then ok none else read

abbrev pub byte : List ℕ → ℕ
byte [] = 0
byte (b ∷ bs) = b

abbrev pub big_endian : List ℕ → ℕ → ℕ
big_endian [] acc = acc
big_endian (b ∷ bs) acc = big_endian bs (acc * 256 + b)

abbrev pub map_value : (List ℕ → ℕ) → Option (List ℕ × Mstream) → Result (Option (ℕ × Mstream))
map_value f none = ok none
map_value f (some (bs, s)) = ok (some (f bs, s))

unfoldable pub mstream_getc : Mstream → Result (Option (ℕ × Mstream))
mstream_getc s = mstream_get s 1 >>= map_value byte

unfoldable pub mstream_getw : Mstream → Result (Option (ℕ × Mstream))
mstream_getw s = mstream_get s 2 >>= map_value (λ bs. big_endian bs 0)

unfoldable pub mstream_getl : Mstream → Result (Option (ℕ × Mstream))
mstream_getl s = mstream_get s 4 >>= map_value (λ bs. big_endian bs 0)

-- A stream that is written to, as the bytes written so far and its length.
pub record Mbuffer : Type 0 where
  pub written : List ℕ
  pub len : ℕ

unfoldable pub mstream_add : Mbuffer → List ℕ → Option Mbuffer
mstream_add s bytes =
    if ltb s.len (length s.written + length bytes)
    then none
    else some (record s { written = s.written ++ bytes })
