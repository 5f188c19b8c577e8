-- ===== src/Labeling/Parse.antt =====
-- A raw BGP update as its parts (parseBGPUpdate in Labeling/rtable.c). The two buffers of the file
-- are kept as what was written to them, and a pointer into one as an offset.
use bgpmon.Base.{
  ℕ, zero, suc, ◌+◌, ◌-◌, ◌/◌, ◌%◌, ◌^◌, List, [], ◌∷◌, ◌++◌, Option, none, some, ltb, ◌==◌, length,
  if◌then◌else◌, Result, ok, err, out_of_bounds, log_fatal, or_fault, ◌>>=◌, replicate, set,
}
use bgpmon.Labeling.State.{plus, minus}
use bgpmon.Labeling.Stream.{
  Mstream, mstream_init, mstream_can_read, mstream_getc, mstream_getw, mstream_current_address,
  bytes_of, skip, drop, Mbuffer, mstream_add,
}
use bgpmon.Labeling.Nlri.{BgpNlri}
use bgpmon.Labeling.Updates.{MpFlag, reach, unreach, ParsedBgpUpdate}
use bgpmon.Labeling.Attrs.{
  max_bgp_message_len, Helper, or_stop, read_length, attrs_loop, is_extended,
}

-- An NLRI of an mp attribute: its length, its address family, and its offset in the second buffer.
pub record MpPart : Type 0 where
  pub flag : MpFlag
  pub nlri_len : ℕ
  pub afi : ℕ
  pub safi : ℕ
  pub offset : ℕ

-- The buffers, the length of all attributes so far, and the NLRIs of the mp attributes.
pub record MpParts : Type 0 where
  pub b : Mbuffer
  pub b1 : Mbuffer
  pub total_len : ℕ
  pub parts : List MpPart

-- The memory of a buffer from an offset on: what is written, then zeros.
abbrev pub buffer_memory : Mbuffer → ℕ → List ℕ
buffer_memory b offset =
    drop (b.written ++ replicate (max_bgp_message_len - length b.written) 0) offset

abbrev pub empty_buffer : Mbuffer
empty_buffer = record { written = []; len = max_bgp_message_len }

-- Memory is copied to a buffer if there is room in it; none is the return value 1.
unfoldable pub copy : Mbuffer → List ℕ → ℕ → Result (Option Mbuffer)
copy b memory n = or_fault (bytes_of memory n) out_of_bounds >>= λ bytes. ok (mstream_add b bytes)

-- The loop over the subnetwork points of attachment, which are passed over.
unfoldable pub skip_snpa : ℕ → Mstream → Result (Option Mstream)
skip_snpa zero s = ok (some s)
skip_snpa (suc n) s = or_stop (mstream_getc s) (λ (len, s'). skip_snpa n (skip len s'))

-- The length of an mp attribute is written again, without its NLRI.
unfoldable pub rewrite_length : ℕ → ℕ → ℕ → Mbuffer → Mbuffer
rewrite_length flag at attr_len b =
    if is_extended flag
    then record b { written = set (set b.written at (attr_len / 256)) (at + 1) (attr_len % 256) }
    else record b { written = set b.written at (attr_len % 256) }

-- The flag, the type and the length that were read before are read again.
unfoldable pub reach_header : Helper → Result (Option (ℕ × ℕ × Mstream))
reach_header h = or_stop (mstream_getc (mstream_init h.memory h.data_length)) (λ (flag, s).
    or_stop (read_length flag (skip 1 s)) (λ (attr_len, s').
      if attr_len + (if is_extended flag then 4 else 3) == h.data_length
      then ok (some (flag, attr_len, s'))
      else err log_fatal))

unfoldable pub reach_family : Mstream → Result (Option (ℕ × ℕ × Mstream))
reach_family s = or_stop (mstream_getw s) (λ (afi, s1). or_stop (mstream_getc s1) (λ (safi, s2).
    or_stop (mstream_getc s2) (λ (next_hop_len, s3).
      or_stop (mstream_getc (skip next_hop_len s3))
        (λ (snpa_count, s4). or_stop (skip_snpa snpa_count s4) (λ s5. ok (some (afi, safi, s5)))))))

unfoldable pub parse_reach : ℕ → Helper → MpParts → Result (Option MpParts)
parse_reach attr_at h m = or_stop (reach_header h) (λ (flag, attr_len, s).
    or_stop (reach_family s) (λ (afi, safi, s').
      let nlri_len = mstream_can_read s' % 2 ^ 16 in
      let part : MpPart = record {
        flag = reach;
        nlri_len = nlri_len;
        afi = afi;
        safi = safi;
        offset = length m.b1.written;
      } in
      or_stop (copy m.b h.memory s'.position) (λ b.
        or_stop (copy m.b1 (mstream_current_address s') nlri_len) (λ b1. ok (
          some (record {
            b = rewrite_length flag (attr_at + m.total_len + 2) (minus 16 attr_len nlri_len) b;
            b1 = b1;
            total_len = plus 16 m.total_len s'.position;
            parts = m.parts ++ (part ∷ []);
          }))))))

-- Whether the copy of the NLRI succeeded is not checked.
unfoldable pub parse_unreach : Helper → MpParts → Result (Option MpParts)
parse_unreach h m = or_stop (mstream_getw (mstream_init h.memory h.data_length)) (λ (afi, s).
    or_stop (mstream_getc s) (λ (safi, s').
      let nlri_len = mstream_can_read s' % 2 ^ 16 in
      copy m.b1 (mstream_current_address s') nlri_len >>= λ copied. ok (
        some (record m {
          b1 = elim copied [ none ↦ m.b1 | some b1 ↦ b1 ];
          parts =
              m.parts
              ++ (record {
                flag = unreach;
                nlri_len = nlri_len;
                afi = afi;
                safi = safi;
                offset = length m.b1.written;
              }
                  ∷ []);
        }))))

abbrev pub parse_mp : ℕ → MpFlag → Helper → MpParts → Result (Option MpParts)
parse_mp attr_at reach h m = parse_reach attr_at h m
parse_mp attr_at unreach h m = parse_unreach h m

unfoldable pub parse_mps : ℕ → List Helper → MpParts → Result (Option MpParts)
parse_mps attr_at [] m = ok (some m)
parse_mps attr_at (h ∷ hs) m = or_stop (parse_mp attr_at h.flag h m) (parse_mps attr_at hs)

abbrev pub mp_nlri_of : Mbuffer → List MpPart → List (MpFlag × BgpNlri)
mp_nlri_of b1 [] = []
mp_nlri_of b1 (p ∷ ps) =
    (
      p.flag,
      record {
        nlri_len = p.nlri_len;
        afi = p.afi;
        safi = p.safi;
        nlri = buffer_memory b1 p.offset;
      },
    )
    ∷ mp_nlri_of b1 ps

-- An NLRI of IPv4 unicast, at an offset of the first buffer.
abbrev pub ipv4_nlri : Mbuffer → ℕ → ℕ → BgpNlri
ipv4_nlri b len offset = record { nlri_len = len; afi = 1; safi = 1; nlri = buffer_memory b offset }

-- The attributes, after the two NLRIs of IPv4 unicast were copied to the buffer.
unfoldable pub parse_attrs : ℕ → ℕ → Mstream → ℕ → Mbuffer → Result (Option ParsedBgpUpdate)
parse_attrs unreach_len reach_len s attr_len b =
    let attr_at = length b.written in
    let memory = mstream_current_address s in
    or_stop
      (attrs_loop (suc (length memory)) (mstream_init memory attr_len)
        (record { b = b; mp = []; as_path = [] }))
      (λ st.
        let basic = (length st.b.written - attr_at) % 2 ^ 16 in
        or_stop
          (parse_mps attr_at st.mp
            (record { b = st.b; b1 = empty_buffer; total_len = basic; parts = [] }))
          (λ m.
            or_fault (bytes_of (buffer_memory m.b attr_at) m.total_len) out_of_bounds >>= λ bytes.
            ok (
              some (record {
                unreach_nlri = ipv4_nlri m.b unreach_len 0;
                reach_nlri = ipv4_nlri m.b reach_len unreach_len;
                mp_nlri = mp_nlri_of m.b1 m.parts;
                as_path = st.as_path;
                attr = record { basic_attrlen = basic; bytes = bytes };
              }))))

abbrev pub no_attrs : ℕ → ℕ → Mbuffer → ParsedBgpUpdate
no_attrs unreach_len reach_len b = record {
  unreach_nlri = ipv4_nlri b unreach_len 0;
  reach_nlri = ipv4_nlri b reach_len unreach_len;
  mp_nlri = [];
  as_path = [];
  attr = record { basic_attrlen = 0; bytes = [] };
}

-- The prefixes that are announced stand behind the attributes.
unfoldable pub parse_reach_nlri : ℕ → Mbuffer → Mstream → Result (Option ParsedBgpUpdate)
parse_reach_nlri unreach_len b s = or_stop (mstream_getw s) (λ (attr_len, s').
    let reach_len = minus 32 s'.len (plus 32 s'.position attr_len) % 2 ^ 16 in
    let announced = drop (mstream_current_address s') attr_len in
    let copied = if reach_len == 0 then ok (some b) else copy b announced reach_len in
    or_stop copied (λ b'.
      let attrs = parse_attrs unreach_len reach_len s' attr_len b' in
      if attr_len == 0 then ok (some (no_attrs unreach_len reach_len b')) else attrs))

unfoldable pub parse_unreach_nlri : ℕ → Mstream → Result (Option ParsedBgpUpdate)
parse_unreach_nlri unreach_len s =
    let withdrawn =
      or_stop (copy empty_buffer (mstream_current_address s) unreach_len)
        (λ b. parse_reach_nlri unreach_len b (skip unreach_len s)) in
    if unreach_len == 0
    then parse_reach_nlri 0 empty_buffer s
    else if ltb (mstream_can_read s) unreach_len
    then ok none
    else withdrawn

-- A length of the withdrawn prefixes that cannot be read counts as 0.
abbrev pub or_zero : Mstream → Option (ℕ × Mstream) → ℕ × Mstream
or_zero s none = (0, s)
or_zero s (some got) = got

-- None stands for any return value but 0. The header of 19 bytes is passed over.
unfoldable pub parse_bgp_update : List ℕ → ℕ → Result (Option ParsedBgpUpdate)
parse_bgp_update raw len =
    let s = mstream_init (drop raw 19) (minus 32 len 19) in
    mstream_getw s >>= λ got.
    let (unreach_len, s') = or_zero s got in parse_unreach_nlri unreach_len s'
