-- ===== src/Labeling/Attrs.antt =====
-- The loop over the attributes of a BGP update (parseBGPUpdate in Labeling/rtable.c).
use bgpmon.Base.{
  ℕ, zero, suc, ◌/◌, ◌%◌, List, [], ◌∷◌, ◌++◌, Option, none, some, Bool, ltb, ◌==◌, length,
  if◌then◌else◌, Result, ok, err, out_of_bounds, hang, or_fault, ◌>>=◌,
}
use bgpmon.Labeling.State.{plus, minus}
use bgpmon.Labeling.Stream.{
  Mstream, mstream_can_read, mstream_getc, mstream_getw, mstream_current_address, bytes_of, skip,
  drop, Mbuffer, mstream_add,
}
use bgpmon.Labeling.Updates.{MpFlag, reach, unreach}

abbrev pub max_bgp_message_len : ℕ
max_bgp_message_len = 4096

abbrev pub max_mp_num : ℕ
max_mp_num = 16

abbrev pub bgp_as_path : ℕ
bgp_as_path = 2

abbrev pub bgp_mp_reach : ℕ
bgp_mp_reach = 14

abbrev pub bgp_mp_unreach : ℕ
bgp_mp_unreach = 15

-- An mp attribute that was found: the memory that starts with it, and its length.
pub record Helper : Type 0 where
  pub flag : MpFlag
  pub memory : List ℕ
  pub data_length : ℕ

-- What the loop has found: the basic attributes behind what the buffer held, the mp attributes and
-- the AS path.
pub record Attrs : Type 0 where
  pub b : Mbuffer
  pub mp : List Helper
  pub as_path : List ℕ

-- The test of the flag BGP_ATTR_FLAG_EXT_LEN.
abbrev pub is_extended : ℕ → Bool
is_extended flag = (flag / 16) % 2 == 1

-- Stop with -1 where a value could not be read.
abbrev pub or_stop {ℓ κ} :
    {A : Type ℓ} {B : Type κ} → Result (Option A) → (A → Result (Option B)) → Result (Option B)
or_stop (err e) f = err e
or_stop (ok none) f = ok none
or_stop (ok (some a)) f = f a

unfoldable pub read_length : ℕ → Mstream → Result (Option (ℕ × Mstream))
read_length flag s = if is_extended flag then mstream_getw s else mstream_getc s

-- The start of an mp attribute is kept in an array.
abbrev pub add_mp : Helper → Attrs → Result (Option Attrs)
add_mp h st =
    if ltb (length st.mp) max_mp_num
    then ok (some (record st { mp = st.mp ++ (h ∷ []) }))
    else err out_of_bounds

abbrev pub added : Attrs → Option Mbuffer → Result (Option Attrs)
added st none = ok none
added st (some b) = ok (some (record st { b = b }))

abbrev pub add_basic : Attrs → List ℕ → Result (Option Attrs)
add_basic st bytes = added st (mstream_add st.b bytes)

-- The switch over the type of an attribute that starts at start_pos and has its value at s.
unfoldable pub take_attr : ℕ → ℕ → ℕ → Mstream → Attrs → Result (Option Attrs)
take_attr type start_pos attr_len s st =
    let size = minus 16 (plus 16 attr_len s.position) start_pos in
    let memory = drop s.start start_pos in
    let whole = or_fault (bytes_of memory size) out_of_bounds in
    if type == bgp_mp_reach
    then add_mp (record { flag = reach; memory = memory; data_length = size }) st
    else if type == bgp_mp_unreach
    then add_mp
        (record { flag = unreach; memory = mstream_current_address s; data_length = attr_len }) st
    else if type == bgp_as_path
    then (whole >>= λ bytes. ok (some (record st { as_path = bytes })))
    else (whole >>= add_basic st)

-- The header of an attribute, then the attribute.
unfoldable pub read_attr : Mstream → Attrs → Result (Option (Mstream × Attrs))
read_attr s st = or_stop (mstream_getc s) (λ (flag, s1). or_stop (mstream_getc s1) (λ (type, s2).
    or_stop (read_length flag s2) (λ (attr_len, s3).
      let taken =
        or_stop (take_attr type s.position attr_len s3 st)
          (λ st'. ok (some (skip attr_len s3, st'))) in
      if ltb (mstream_can_read s3) attr_len then ok none else taken)))

unfoldable pub attrs_loop : ℕ → Mstream → Attrs → Result (Option Attrs)
attrs_loop zero s st = err hang
attrs_loop (suc fuel) s st =
    let next = or_stop (read_attr s st) (λ (s', st'). attrs_loop fuel s' st') in
    if mstream_can_read s == 0 then ok (some st) else next
