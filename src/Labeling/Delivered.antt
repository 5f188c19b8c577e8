-- ===== src/Labeling/Delivered.antt =====
-- A message of the peer queue that is a whole BGP update, from its bytes to the routes (processBMF in
-- Labeling/label.c).
use mathlib.Core.List.{append-nil}
use bgpmon.Base.{
  ℕ, ◌+◌, ◌*◌, ◌/◌, ◌%◌, ◌^◌, ◌≤◌, ◌<◌, ◌≡◌, refl, sym, ap, ◌∙◌, List, [], ◌∷◌, ◌++◌, Option, none,
  some, Bool, true, false, length, if◌then◌else◌, Result, ok, arith, subst, Bool-cases, inl, inr,
}
use bgpmon.Labeling.State.{Rib}
use bgpmon.Labeling.Stream.{drop}
use bgpmon.Labeling.Prefixes.{Bmf}
use bgpmon.Labeling.Updates.{ParsedBgpUpdate, apply_bgp_update}
use bgpmon.Labeling.Attrs.{max_bgp_message_len}
use bgpmon.Labeling.Process.{
  LabelAction, BmfMessage, BmfType, Processed, msg_labeled, msg_from_peer, table_transfer,
  other_type, type_update, process_type, process_bmf, process_update, process_from_peer,
  header_length, header_type, with_message, is_labelled,
}
use bgpmon.Labeling.View.{Content}
use bgpmon.Labeling.Inv.{IsValid}
use bgpmon.Labeling.Encoded.{AllIn, drop-append}
use bgpmon.Labeling.Attributed.{AllPlain, basics, path_of}
use bgpmon.Labeling.Messages.{UpdateMessage, update_bytes, be16, Parsed}
use bgpmon.Labeling.Parsed.{parse_bgp_update_lem}
use bgpmon.Labeling.Routes.{Routes, routes, Follows}
use bgpmon.Labeling.Refine.{Stage}
use bgpmon.Labeling.Parts.{RouteUpdate, HoldsUpdate, MpEncodes, update_routes}
use bgpmon.Labeling.Whole.{apply_bgp_update_lem}

-- The message with its header: a marker of 16 bytes, the length and the type.
abbrev pub packet : List ℕ → UpdateMessage → List ℕ
packet marker m = marker ++ (be16 (19 + length (update_bytes m)) ++ (type_update ∷ update_bytes m))

abbrev pub routes_of : UpdateMessage → RouteUpdate
routes_of m = record { withdrawn = m.withdrawn; mp = []; announced = m.announced }

abbrev pub content_of : UpdateMessage → Content
content_of m = (path_of m.attrs [], basics m.attrs)

Parsed-HoldsUpdate :
    (m : UpdateMessage) (p : ParsedBgpUpdate)
    → Parsed m p
    → 0 < length (basics m.attrs)
    → HoldsUpdate p (routes_of m)
Parsed-HoldsUpdate m p h some_basics = record {
  withdrawn = h.withdrawn;
  mp = subst (λ z. MpEncodes z []) (sym h.no_mp) tt;
  announced = h.announced;
  some_basic = omega (arith, h.basic, some_basics);
  some_attr = omega (arith, ap length h.bytes, some_basics);
}

-- What is written where the header is read.
packet_at :
    (marker : List ℕ) (m : UpdateMessage)
    → length marker ≡ 16
    → drop (packet marker m) 16
      ≡ be16 (19 + length (update_bytes m)) ++ (type_update ∷ update_bytes m)
packet_at marker m sixteen =
    let here : 0 + length marker ≡ 16 = omega (arith, sixteen) in
    ap (drop (packet marker m)) (sym here)
    ∙ drop-append (packet marker m) marker
        (be16 (19 + length (update_bytes m)) ++ (type_update ∷ update_bytes m)) 0 refl

header_length-packet :
    (marker : List ℕ) (m : UpdateMessage)
    → length marker ≡ 16
    → header_length (packet marker m) ≡ ok (19 + length (update_bytes m))
header_length-packet marker m sixteen =
    let n : ℕ = 19 + length (update_bytes m) in
    let value : (0 * 256 + n / 256) * 256 + n % 256 ≡ n = omega arith in
    rw (packet_at marker m sixteen) (ap ok value)

header_type-packet :
    (marker : List ℕ) (m : UpdateMessage)
    → length marker ≡ 16
    → header_type (packet marker m) ≡ ok type_update
header_type-packet marker m sixteen =
    rw
      (drop-append (packet marker m) (be16 (19 + length (update_bytes m)))
        (type_update ∷ update_bytes m) 16 (packet_at marker m sixteen))
      refl

body-packet :
    (marker : List ℕ) (m : UpdateMessage)
    → length marker ≡ 16
    → drop (packet marker m) 19 ≡ update_bytes m
body-packet marker m sixteen =
    drop-append (packet marker m) (type_update ∷ []) (update_bytes m) 18 (
      drop-append (packet marker m) (be16 (19 + length (update_bytes m)))
        (type_update ∷ update_bytes m) 16 (packet_at marker m sixteen))

-- The message that is labelled, if it is one to label.
abbrev pub to_label : LabelAction → BmfMessage → Option Bmf
to_label wanted b = if is_labelled b.type wanted then some b.message else none

abbrev pub delivered : LabelAction → BmfMessage → Option Bmf → BmfMessage
delivered wanted b o =
    if is_labelled b.type wanted then with_message (record b { type = msg_labeled }) o else b

abbrev pub Processes :
    (Result Processed) → (LabelAction) → BmfMessage → (Routes → Routes) → ℕ → Rib → Type 0
Processes run wanted b g n r =
    (r' : Rib) × (run
      ≡ ok (record {
        returned = true;
        rib = r';
        bmf = delivered wanted b (g (routes r (to_label wanted b))).1;
      }))
    × Follows r n 1 (g (routes r (to_label wanted b))).0 r'

process_update_step :
    (wanted : LabelAction) (b : BmfMessage) (u : ParsedBgpUpdate) (g : Routes → Routes) (n : ℕ)
    (r : Rib)
    → Stage (apply_bgp_update b.timestamp u) g n 1 r (to_label wanted b)
    → Processes (process_update wanted r b u) wanted b g n r
unfolding process_update
process_update_step wanted b u g n r stage =
    let start : Bool → Option Bmf = λ z. if z then some b.message else none in
    let at : (z : Bool)
        → is_labelled b.type wanted ≡ z
        → Stage (apply_bgp_update b.timestamp u) g n 1 r (start z) =
      λ z e. subst (λ y. Stage (apply_bgp_update b.timestamp u) g n 1 r (start y)) e stage in
    elim (Bool-cases (is_labelled b.type wanted)) [
      | inl t ↦ let (r', run, follows) = at true t in rw t (r', rw run refl, follows)
      | inr f ↦ let (r', run, follows) = at false f in rw f (r', rw run refl, follows)
    ]

-- Whether labeling applies to messages of this type.
abbrev pub is_applied : BmfType → Bool
is_applied msg_from_peer = true
is_applied table_transfer = true
is_applied type = false

process_type_step :
    (wanted : LabelAction) (r : Rib) (b : BmfMessage) (type : BmfType)
    → is_applied type ≡ true
    → process_type wanted r b type ≡ process_from_peer wanted r b
process_type_step wanted r b msg_from_peer e = refl
process_type_step wanted r b table_transfer e = refl
process_type_step wanted r b msg_labeled e = absurd (cc)
process_type_step wanted r b other_type e = absurd (cc)

-- The routes that the update asks for.
abbrev pub follow : UpdateMessage → Rib → Routes → Routes
follow m r = update_routes r.attribute_table.table_size (content_of m) (routes_of m)

Parsed-Stage :
    (m : UpdateMessage) (ts : ℕ) (p : ParsedBgpUpdate)
    → Parsed m p
    → 0 < length (basics m.attrs)
    → (r : Rib) (bmf : Option Bmf) → IsValid r
    → length r.prefixes + length m.announced < 2 ^ 16
    → length r.attributes + 1 < 2 ^ 32
    → Stage (apply_bgp_update ts p) (follow m r) (length m.announced) 1 r bmf
Parsed-Stage m ts p h some_basics r bmf v few few' =
    let content : (p.as_path, p.attr.bytes) ≡ content_of m = λ i. (h.as_path i, h.bytes i) in
    let (r', run, follows) =
      subst
        (λ c.
          Stage (apply_bgp_update ts p) (update_routes r.attribute_table.table_size c (routes_of m))
            (0 + length m.announced) (0 + 1) r bmf)
        content
        (apply_bgp_update_lem ts p (routes_of m) (Parsed-HoldsUpdate m p h some_basics) r bmf v
          (omega (arith, few)) (omega (arith, few'))) in
    (
      r',
      run,
      record {
        valid = follows.valid;
        view = follows.view;
        few_prefixes = omega (arith, follows.few_prefixes);
        few_attributes = omega (arith, follows.few_attributes);
        same_size = follows.same_size;
      },
    )

-- processBMF on a message from the peer or of a table transfer whose bytes are a marker, the
-- length, the type and an update of at most 4096 bytes, on a valid RIB with room for its prefixes,
-- returns 0 with a valid RIB. The prefixes of the update are IPv4 unicast, its attributes have
-- lengths of one byte, none is of an mp address family, and some is no AS path. The routes are then
-- what the withdrawals and then the announcements make of the old ones, with the last AS path and
-- the other attributes, and the message is labelled if the session wants that and it is no table
-- transfer.
pub process_bmf_lem :
    (marker : List ℕ) (m : UpdateMessage) (wanted : LabelAction) (b : BmfMessage) (r : Rib)
    → b.message ≡ packet marker m
    → length marker ≡ 16
    → AllIn 1 1 m.withdrawn
    → AllIn 1 1 m.announced
    → AllPlain m.attrs
    → 0 < length (basics m.attrs)
    → 19 + length (update_bytes m) ≤ max_bgp_message_len
    → is_applied b.type ≡ true
    → IsValid r
    → length r.prefixes + length m.announced < 2 ^ 16
    → length r.attributes + 1 < 2 ^ 32
    → Processes (process_bmf wanted r b) wanted b (follow m r) (length m.announced) r
unfolding process_bmf process_from_peer
process_bmf_lem marker m wanted b r whole sixteen ws rs plain some_basics fits applied v few few' =
    let (p, parse, parsed) =
      parse_bgp_update_lem m.withdrawn m.announced ws rs m.attrs b.message [] plain
        (ap (λ z. drop z 19) whole
          ∙ body-packet marker m sixteen
          ∙ sym (append-nil (update_bytes m)))
        fits in
    let stage : Stage (apply_bgp_update b.timestamp p) (follow m r) (length m.announced) 1 r
        (to_label wanted b) =
      Parsed-Stage m b.timestamp p parsed some_basics r (to_label wanted b) v few few' in
    rw
      (
        process_type_step wanted r b b.type applied,
        ap header_type whole ∙ header_type-packet marker m sixteen,
        ap header_length whole ∙ header_length-packet marker m sixteen,
        parse,
      )
      (process_update_step wanted b p (follow m r) (length m.announced) r stage)
