-- ===== src/Labeling/Process.antt =====
-- A message of the peer queue, applied to the RIB of its session and labelled (processBMF in
-- Labeling/label.c).
use bgpmon.Base.{
  ℕ, Option, none, some, Bool, true, false, ◌==◌, if◌then◌else◌, Result, ok, out_of_bounds,
  or_fault, ◌>>=◌,
}
use bgpmon.Labeling.State.{Rib}
use bgpmon.Labeling.Stream.{bytes_of, big_endian, drop, byte}
use bgpmon.Labeling.Prefixes.{Bmf}
use bgpmon.Labeling.Updates.{ParsedBgpUpdate, apply_bgp_update}
use bgpmon.Labeling.Parse.{parse_bgp_update}

pub data LabelAction : Type 0 where
  no_action label store_rib_only : LabelAction

-- The types of a BMF message that the function tells apart.
pub data BmfType : Type 0 where
  msg_from_peer msg_labeled table_transfer other_type : BmfType

pub record BmfMessage : Type 0 where
  pub timestamp : ℕ
  pub type : BmfType
  pub message : Bmf

-- The message and the RIB afterwards, and whether 0 or -1 is returned.
pub record Processed : Type 0 where
  pub returned : Bool
  pub rib : Rib
  pub bmf : BmfMessage

abbrev pub type_update : ℕ
type_update = 2

-- The length and the type of a BGP message, behind the marker of 16 bytes.
abbrev pub header_length : Bmf → Result ℕ
header_length m = or_fault (bytes_of (drop m 16) 2) out_of_bounds >>= λ bs. ok (big_endian bs 0)

abbrev pub header_type : Bmf → Result ℕ
header_type m = or_fault (bytes_of (drop m 18) 1) out_of_bounds >>= λ bs. ok (byte bs)

abbrev pub is_labelled : BmfType → LabelAction → Bool
is_labelled table_transfer wanted = false
is_labelled type label = true
is_labelled type wanted = false

abbrev pub with_message : BmfMessage → Option Bmf → BmfMessage
with_message b none = b
with_message b (some m) = record b { message = m }

unfoldable pub process_update : LabelAction → Rib → BmfMessage → ParsedBgpUpdate → Result Processed
process_update wanted r b u =
    let labelled = record b { type = msg_labeled } in
    if is_labelled b.type wanted
    then (apply_bgp_update b.timestamp u r (some b.message) >>= λ o.
        ok (record { returned = o.returned; rib = o.rib; bmf = with_message labelled o.bmf }))
    else (apply_bgp_update b.timestamp u r none >>= λ o.
        ok (record { returned = o.returned; rib = o.rib; bmf = b }))

abbrev pub rejected : Rib → BmfMessage → Result Processed
rejected r b = ok (record { returned = false; rib = r; bmf = b })

abbrev pub after_parse : LabelAction → Rib → BmfMessage → Option ParsedBgpUpdate → Result Processed
after_parse wanted r b none = rejected r b
after_parse wanted r b (some u) = process_update wanted r b u

unfoldable pub process_from_peer : LabelAction → Rib → BmfMessage → Result Processed
process_from_peer wanted r b = header_type b.message >>= λ bgp_type.
    header_length b.message >>= λ len.
    let parsed = parse_bgp_update b.message len >>= after_parse wanted r b in
    if bgp_type == type_update then parsed else rejected r b

-- Labeling applies to messages from the peer and to table transfers only.
abbrev pub process_type : LabelAction → Rib → BmfMessage → BmfType → Result Processed
process_type wanted r b msg_from_peer = process_from_peer wanted r b
process_type wanted r b table_transfer = process_from_peer wanted r b
process_type wanted r b type = ok (record { returned = true; rib = r; bmf = b })

unfoldable pub process_bmf : LabelAction → Rib → BmfMessage → Result Processed
process_bmf wanted r b = process_type wanted r b b.type
