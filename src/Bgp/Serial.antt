-- ===== src/Bgp/Serial.antt =====
-- The bytes of an update: BGP_calculateLength and BGP_serialize (Util/bgp.c).
use bgpmon.Base.{
  ℕ, zero, suc, ◌+◌, ◌-◌, ◌*◌, ◌/◌, ◌%◌, ◌^◌, List, [], ◌∷◌, Option, none, some, ltb, leb, ◌==◌,
  length, get_elem?, if◌then◌else◌, Result, ok, err, out_of_bounds, null_pointer, or_fault, ◌>>=◌,
  replicate,
}
use bgpmon.Labeling.State.{minus}
use bgpmon.Labeling.Stream.{bytes_of}
use bgpmon.Labeling.Attrs.{is_extended}
use bgpmon.Bgp.Build.{BgpRoute, PathAttribute, BgpUpdate, BgpMessage, bgp_update, length_bytes}

abbrev pub bgp_max_msg_len : ℕ
bgp_max_msg_len = 4096

abbrev pub bgp_pattr_as_path : ℕ
bgp_pattr_as_path = 2

-- The length of the length of an attribute.
abbrev pub pal_len : ℕ → ℕ
pal_len flags = if is_extended flags then 2 else 1

abbrev pub routes_length : List BgpRoute → ℕ
routes_length [] = 0
routes_length (r ∷ rs) = 1 + length_bytes r.length + routes_length rs

-- The second byte of a value, the number of AS numbers of its first segment.
abbrev pub as_count : PathAttribute → Result ℕ
as_count a = or_fault (get_elem? a.value 1) out_of_bounds

-- What the attributes add to the length, and what is taken off again.
unfoldable pub attributes_length : List PathAttribute → Result (ℕ × ℕ)
attributes_length [] = ok (0, 0)
attributes_length (a ∷ l) =
    let less = if a.code == bgp_pattr_as_path then (as_count a >>= λ n. ok (n * 2)) else ok 0 in
    less >>= λ k. attributes_length l >>= λ (n, m). ok (2 + pal_len a.flags + a.length + n, k + m)

-- A length below 0 is returned as 0: nothing can be allocated for either.
unfoldable pub calculate_length : BgpUpdate → Result ℕ
calculate_length u = attributes_length u.path_atts >>= λ (n, m).
    ok (19 + 2 + routes_length u.withdrawn_routes + 2 + n + routes_length u.nlris - m)

-- The bytes of a message that is written, and the place in it.
pub record Bits : Type 0 where
  pub bits : List ℕ
  pub i : ℕ

abbrev pub overwrite : List ℕ → ℕ → List ℕ → List ℕ
overwrite l i [] = l
overwrite [] i (b ∷ bs) = []
overwrite (x ∷ l) zero (b ∷ bs) = b ∷ overwrite l 0 bs
overwrite (x ∷ l) (suc i) (b ∷ bs) = x ∷ overwrite l i (b ∷ bs)

unfoldable pub put : ℕ → List ℕ → Bits → Result Bits
put at bs s =
    if ltb (length s.bits) (at + length bs)
    then err out_of_bounds
    else ok (record s { bits = overwrite s.bits at bs })

abbrev pub forward : ℕ → Bits → Bits
forward n s = record s { i = s.i + n }

abbrev pub emit : List ℕ → Bits → Result Bits
emit bs s = put s.i bs s >>= λ s'. ok (forward (length bs) s')

-- BGP_ASSIGN_2BYTES
abbrev pub two_bytes : ℕ → List ℕ
two_bytes n = (n / 256) % 256 ∷ n % 256 ∷ []

unfoldable pub emit_routes : List BgpRoute → Bits → Result Bits
emit_routes [] s = ok s
emit_routes (r ∷ rs) s = emit (r.length ∷ []) s >>= λ s'.
    or_fault (bytes_of r.prefix (length_bytes r.length)) out_of_bounds >>= λ bytes.
    emit bytes s' >>= emit_routes rs

abbrev pub emit_length : ℕ → ℕ → Bits → Result Bits
emit_length flags n s = if is_extended flags then emit (two_bytes n) s else emit (n % 256 ∷ []) s

-- A section whose length is written in front of it afterwards.
unfoldable pub section : (Bits → Result Bits) → Bits → Result Bits
section f s = f (forward 2 s) >>= λ s'. put s.i (two_bytes (s'.i - s.i - 2)) s'

module _ (pointer : ℕ → ℕ) (atts : List PathAttribute) where
  -- The AS numbers are read from the pointers to the attributes; the place moves on and is added to.
  unfoldable pub emit_as : ℕ → ℕ → Bits → Result Bits
  emit_as zero idy s = ok s
  emit_as (suc n) idy s =
      let step = put (s.i + 2 * idy) (two_bytes (pointer (idy * 4))) s >>= λ s'.
      emit_as n (suc idy) (forward 2 s') in
      if leb (length atts) (idy * 4) then err out_of_bounds else step

  -- The attribute whose count is taken stands at the place in the message.
  unfoldable pub emit_as_path : PathAttribute → Bits → Result Bits
  emit_as_path a s = or_fault (get_elem? atts s.i) out_of_bounds >>= as_count >>= λ n.
      emit_length a.flags (minus 16 a.length (n * 2)) s >>= λ s'. as_count a >>= λ m. emit_as m 0 s'

  unfoldable pub emit_attribute : PathAttribute → Bits → Result Bits
  emit_attribute a s = emit (a.flags ∷ a.code ∷ []) s >>= λ s'.
      let plain = emit_length a.flags a.length s' >>= λ s''.
      or_fault (bytes_of a.value a.length) out_of_bounds >>= λ bytes. emit bytes s'' in
      let path = emit_as_path a s' in if a.code == bgp_pattr_as_path then path else plain

  unfoldable pub emit_attributes : List PathAttribute → Bits → Result Bits
  emit_attributes [] s = ok s
  emit_attributes (a ∷ l) s = emit_attribute a s >>= emit_attributes l

unfoldable pub emit_update : (ℕ → ℕ) → BgpUpdate → ℕ → Result Bits
emit_update pointer u n = emit (replicate 16 255) (record { bits = replicate n 0; i = 0 }) >>= λ s0.
    emit (two_bytes n) s0 >>= λ s1. emit (2 ∷ []) s1 >>= λ s2.
    section (emit_routes u.withdrawn_routes) s2 >>= λ s3.
    section (emit_attributes pointer u.path_atts u.path_atts) s3 >>= λ s4. emit_routes u.nlris s4

-- The length of the message is set as well.
unfoldable pub serialize_update :
    (ℕ → ℕ) → BgpMessage → BgpUpdate → Result (BgpMessage × Option (List ℕ))
serialize_update pointer msg u = calculate_length u >>= λ n.
    let sized = record msg { length = n % 2 ^ 16 } in
    let bytes = emit_update pointer u n >>= λ s. ok (record msg { length = n }, some s.bits) in
    if n == 0 then ok (sized, none) else if ltb bgp_max_msg_len n then ok (sized, none) else bytes

-- None stands for NULL. The parameter is the number read from a place of the array of pointers.
unfoldable pub serialize : (ℕ → ℕ) → BgpMessage → Result (BgpMessage × Option (List ℕ))
serialize pointer msg = elim msg.type [
  | bgp_update ↦ or_fault msg.type_specific null_pointer >>= serialize_update pointer msg
  | _ ↦ ok (msg, none)
]
