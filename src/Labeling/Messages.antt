-- ===== src/Labeling/Messages.antt =====
-- A BGP update as bytes, and the first steps of parseBGPUpdate on them (Labeling/rtable.c).
use mathlib.Core.List.{append_assoc, append-nil}
use bgpmon.Base.{
  ℕ, ◌+◌, ◌/◌, ◌%◌, ◌^◌, ◌≤◌, ◌<◌, ◌≡◌, refl, sym, ap, ◌∙◌, List, [], ◌∷◌, ◌++◌, some, false, ltb,
  ◌==◌, length, if◌then◌else◌, ok, arith, le→ltb, length-append, if_elim,
}
use bgpmon.Labeling.Heaps.{eq_ne}
use bgpmon.Labeling.State.{Prefix, plus}
use bgpmon.Labeling.Stream.{Mstream, mstream_can_read, skip, Mbuffer}
use bgpmon.Labeling.Updates.{ParsedBgpUpdate}
use bgpmon.Labeling.Attrs.{bgp_as_path, max_bgp_message_len}
use bgpmon.Labeling.Parse.{copy, empty_buffer, parse_reach_nlri, parse_unreach_nlri}
use bgpmon.Labeling.Encoded.{Holds, can_read_lem, bytes_of-append, encode}
use bgpmon.Labeling.Batch.{Encodes}
use bgpmon.Labeling.Attributed.{AttrValue, attr_bytes, encode_attrs, basics, path_of, add_lem}

-- A number of 16 bits, the high byte first.
abbrev pub be16 : ℕ → List ℕ
be16 n = n / 256 ∷ n % 256 ∷ []

-- A message without its header.
pub record UpdateMessage : Type 0 where
  pub withdrawn : List Prefix
  pub attrs : List AttrValue
  pub announced : List Prefix

abbrev pub tail_bytes : UpdateMessage → List ℕ
tail_bytes m = encode_attrs m.attrs ++ encode m.announced

abbrev pub body_bytes : UpdateMessage → List ℕ
body_bytes m = be16 (length (encode_attrs m.attrs)) ++ tail_bytes m

abbrev pub update_bytes : UpdateMessage → List ℕ
update_bytes m = be16 (length (encode m.withdrawn)) ++ (encode m.withdrawn ++ body_bytes m)

-- The copy of bytes that a stream holds.
copy_lem :
    (b : Mbuffer) (xs ys : List ℕ)
    → length b.written + length xs ≤ b.len
    → copy b (xs ++ ys) (length xs) ≡ ok (some (record b { written = b.written ++ xs }))
unfolding copy
copy_lem b xs ys room = rw (bytes_of-append xs ys, add_lem b xs room) refl

-- What the parts of the result have to do with the message.
pub record Parsed (m : UpdateMessage) (p : ParsedBgpUpdate) : Type 0 where
  pub withdrawn : Encodes p.unreach_nlri m.withdrawn
  pub announced : Encodes p.reach_nlri m.announced
  pub no_mp : p.mp_nlri ≡ []
  pub as_path : p.as_path ≡ path_of m.attrs []
  pub bytes : p.attr.bytes ≡ basics m.attrs
  pub basic : p.attr.basic_attrlen ≡ length (basics m.attrs)

pub basics_le : (as' : List AttrValue) → length (basics as') ≤ length (encode_attrs as')
basics_le [] = omega arith
basics_le (a ∷ as') =
    let attr : List ℕ = attr_bytes a in
    let one : length (attr ++ encode_attrs as') ≡ length attr + length (encode_attrs as') =
      length-append attr (encode_attrs as') in
    if_elim (λ z. length z ≤ length (attr ++ encode_attrs as')) (a.type == bgp_as_path)
      (λ _. omega (arith, basics_le as', one))
      (λ _. omega (arith, basics_le as', one, length-append attr (basics as')))

pub length-attrs : (as' : List AttrValue) → length as' ≤ length (encode_attrs as')
length-attrs [] = omega arith
length-attrs (a ∷ as') =
    omega (arith, length-attrs as', length-append (attr_bytes a) (encode_attrs as'))

abbrev pub buffer : List ℕ → Mbuffer
buffer written = record { written = written; len = max_bgp_message_len }

skip_none : (s : Mstream) → s.position < 2 ^ 16 → skip 0 s ≡ s
skip_none s lt =
    let same : plus 16 s.position 0 ≡ s.position = omega arith in
    λ i. record { start = s.start; position = same i; len = s.len }

pub unreach_step :
    (w body rest : List ℕ) (s : Mstream)
    → Holds s (w ++ body) rest
    → length w ≤ max_bgp_message_len
    → parse_unreach_nlri (length w) s ≡ parse_reach_nlri (length w) (buffer w) (skip (length w) s)
unfolding parse_unreach_nlri
unreach_step [] body rest s h room =
    ap (parse_reach_nlri 0 (buffer [])) (sym (skip_none s (omega (arith, h.ends, h.fits))))
unreach_step (x ∷ w) body rest s h room =
    let enough : ltb (mstream_can_read s) (length (x ∷ w)) ≡ false =
      le→ltb (mstream_can_read s) (length (x ∷ w))
        (omega (arith, can_read_lem s ((x ∷ w) ++ body) rest h, length-append w body)) in
    rw
      (
        eq_ne (length (x ∷ w)) 0 (λ z. absurd (omega (arith, z))),
        enough,
        h.at ∙ append_assoc (x ∷ w) body rest,
        copy_lem empty_buffer (x ∷ w) (body ++ rest) (omega (arith, room)),
      )
      refl

pub copied_step :
    (w e rest : List ℕ)
    → length w + length e ≤ max_bgp_message_len
    → (if length e == 0 then ok (some (buffer w)) else copy (buffer w) (e ++ rest) (length e))
      ≡ ok (some (buffer (w ++ e)))
copied_step w [] rest room = ap (λ z. ok (some (buffer z))) (sym (append-nil w))
copied_step w (x ∷ e) rest room =
    rw (eq_ne (length (x ∷ e)) 0 (λ z. absurd (omega (arith, z))))
      (copy_lem (buffer w) (x ∷ e) rest room)
