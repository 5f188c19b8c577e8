-- ===== src/Bgp/Serialized.antt =====
-- The message that BGP_serialize returns (Util/bgp.c).
use mathlib.Core.List.{append_assoc, append-nil}
use bgpmon.Base.{
  ℕ, ◌+◌, ◌/◌, ◌%◌, ◌^◌, ◌≤◌, ◌<◌, ◌≡◌, refl, ap, ◌∙◌, List, [], ◌∷◌, ◌++◌, some, length, ok,
  replicate, arith, le→ltb, length-append,
}
use bgpmon.Labeling.Heaps.{eq_ne}
use bgpmon.Labeling.Encoded.{encode}
use bgpmon.Labeling.Attributed.{encode_attrs}
use bgpmon.Labeling.Messages.{be16, update_bytes}
use bgpmon.Labeling.Delivered.{packet}
use bgpmon.Bgp.Build.{BgpUpdate, BgpMessage, bgp_update}
use bgpmon.Bgp.Serial.{
  two_bytes, emit_routes, emit_attributes, emit_update, serialize, serialize_update,
  bgp_max_msg_len,
}
use bgpmon.Bgp.Written.{at, emit_lem, section_lem}
use bgpmon.Bgp.Encoding.{
  prefixes_of, values_of, IsSimple, message_of, emit_routes_lem, emit_attributes_lem,
  calculate_length_lem,
}

two_bytes_small : (n : ℕ) → n < 2 ^ 16 → two_bytes n ≡ be16 n
two_bytes_small n lt =
    let high : (n / 256) % 256 ≡ n / 256 = omega (arith, lt) in ap (λ z. z ∷ n % 256 ∷ []) high

abbrev pub all_ones : List ℕ
all_ones = replicate 16 255

module _ (pointer : ℕ → ℕ) (u : BgpUpdate) (h : IsSimple u) where
  abbrev w : List ℕ
  w = encode (prefixes_of u.withdrawn_routes)

  abbrev a : List ℕ
  a = encode_attrs (values_of u.path_atts)

  abbrev e : List ℕ
  e = encode (prefixes_of u.nlris)

  abbrev size : ℕ
  size = 19 + length (update_bytes (message_of u))

  abbrev header : List ℕ
  header = (all_ones ++ two_bytes size) ++ (2 ∷ [])

  abbrev with_withdrawn : List ℕ
  with_withdrawn = header ++ (two_bytes (length w) ++ w)

  abbrev with_attributes : List ℕ
  with_attributes = with_withdrawn ++ (two_bytes (length a) ++ a)

  sizes : size ≡ 19 + (2 + (length w + (2 + (length a + length e))))
  sizes = omega (arith, length-append w (be16 (length a) ++ (a ++ e)), length-append a e)

  emit_update_lem : emit_update pointer u size ≡ ok (at (with_attributes ++ e) 0)
  unfolding emit_update
  emit_update_lem =
      let k2 : ℕ = 2 + (length w + (2 + (length a + length e))) in
      let k3 : ℕ = 2 + (length a + length e) in
      let blank2 : List ℕ = header ++ (0 ∷ 0 ∷ []) in
      let blank3 : List ℕ = with_withdrawn ++ (0 ∷ 0 ∷ []) in
      rw
        (
          emit_lem [] all_ones (3 + k2) size (omega (arith, sizes)),
          emit_lem all_ones (two_bytes size) (1 + k2) (3 + k2) (omega arith),
          emit_lem (all_ones ++ two_bytes size) (2 ∷ []) k2 (1 + k2) (omega arith),
          section_lem (emit_routes u.withdrawn_routes) header w k3 k2 (omega arith)
              (emit_routes_lem u.withdrawn_routes blank2 k3 (length w + k3) h.withdrawn refl),
          section_lem (emit_attributes pointer u.path_atts u.path_atts) with_withdrawn a (length e)
              k3 (omega arith)
              (emit_attributes_lem pointer u.path_atts u.path_atts blank3 (length e)
                (length a + length e) h.attributes refl),
        )
        (emit_routes_lem u.nlris with_attributes 0 (length e) h.announced (omega arith))

  written_packet :
      size ≤ bgp_max_msg_len → (with_attributes ++ e) ++ [] ≡ packet all_ones (message_of u)
  written_packet fits =
      let n2 : two_bytes size ≡ be16 size = two_bytes_small size (omega (arith, fits)) in
      let w2 : two_bytes (length w) ≡ be16 (length w) =
        two_bytes_small (length w) (omega (arith, fits, sizes)) in
      let a2 : two_bytes (length a) ≡ be16 (length a) =
        two_bytes_small (length a) (omega (arith, fits, sizes)) in
      append-nil (with_attributes ++ e)
      ∙ append_assoc with_withdrawn (two_bytes (length a) ++ a) e
      ∙ append_assoc header (two_bytes (length w) ++ w) ((two_bytes (length a) ++ a) ++ e)
      ∙ append_assoc (all_ones ++ two_bytes size) (2 ∷ [])
          ((two_bytes (length w) ++ w) ++ ((two_bytes (length a) ++ a) ++ e))
      ∙ append_assoc all_ones (two_bytes size)
          (2 ∷ ((two_bytes (length w) ++ w) ++ ((two_bytes (length a) ++ a) ++ e)))
      ∙ (λ i. all_ones ++ (n2 i ++ (2 ∷ ((w2 i ++ w) ++ ((a2 i ++ a) ++ e)))))

  -- BGP_serialize of an update of at most 4096 bytes whose routes have all their bytes and whose
  -- attributes are no AS paths, with lengths of one byte, sets the length, that of the header
  -- included, and returns exactly a marker of ones, the length, the type and the encoded update:
  -- no byte is written past the buffer and none is left.
  pub serialize_lem :
      (msg : BgpMessage)
      → msg.type ≡ bgp_update
      → msg.type_specific ≡ some u
      → size ≤ bgp_max_msg_len
      → serialize pointer msg
        ≡ ok (record msg { length = size }, some (packet all_ones (message_of u)))
  unfolding serialize serialize_update
  serialize_lem msg type specific fits =
      rw
        (
          type,
          specific,
          calculate_length_lem u h,
          eq_ne size 0 (λ z. absurd (omega (arith, z))),
          le→ltb bgp_max_msg_len size fits,
          emit_update_lem,
        )
        (ap (λ z. ok (record { length = size; type = bgp_update; type_specific = some u }, some z))
          (written_packet fits))
