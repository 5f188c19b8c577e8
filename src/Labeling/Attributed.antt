-- ===== src/Labeling/Attributed.antt =====
-- The attributes of an update as bytes, and the loop that reads them (parseBGPUpdate in
-- Labeling/rtable.c).

use mathlib.Core.List.{append_assoc, append-nil}
use bgpmon.Base.{
  ℕ, zero, suc, ◌+◌, ◌*◌, ◌≤◌, ◌<◌, ◌≡◌, ◌≢◌, refl, sym, ap, ◌∙◌, subst, List, [], ◌∷◌, ◌++◌, some,
  false, ltb, ◌==◌, length, if◌then◌else◌, ok, arith, le→ltb, length-append, Bool-cases, inl, inr,
}
use bgpmon.Labeling.Heaps.{eq_ne}
use bgpmon.Labeling.State.{plus, minus}
use bgpmon.Labeling.Stream.{
  Mstream, mstream_can_read, mstream_get, mstream_getw, skip, Mbuffer, mstream_add,
}
use bgpmon.Labeling.Attrs.{
  Attrs, read_length, take_attr, read_attr, attrs_loop, is_extended, bgp_as_path, bgp_mp_reach,
  bgp_mp_unreach,
}
use bgpmon.Labeling.Encoded.{Holds, can_read_lem, getc_lem, skip_lem, bytes_lem}

pub record AttrValue : Type 0 where
  pub flag : ℕ
  pub type : ℕ
  pub value : List ℕ

-- An attribute with a length of one byte, and not one of an mp address family.
pub record IsPlain (a : AttrValue) : Type 0 where
  pub short : is_extended a.flag ≡ false
  pub no_reach : a.type ≢ bgp_mp_reach
  pub no_unreach : a.type ≢ bgp_mp_unreach

abbrev pub attr_bytes : AttrValue → List ℕ
attr_bytes a = a.flag ∷ a.type ∷ length a.value ∷ a.value

abbrev pub encode_attrs : List AttrValue → List ℕ
encode_attrs [] = []
encode_attrs (a ∷ as') = attr_bytes a ++ encode_attrs as'

-- The attributes without the AS path, and the last AS path.
abbrev pub basics : List AttrValue → List ℕ
basics [] = []
basics (a ∷ as') = if a.type == bgp_as_path then basics as' else attr_bytes a ++ basics as'

abbrev pub path_of : List AttrValue → List ℕ → List ℕ
path_of [] path = path
path_of (a ∷ as') path = path_of as' (if a.type == bgp_as_path then attr_bytes a else path)

abbrev pub AllPlain : List AttrValue → Type 0
AllPlain [] = Unit {0}
AllPlain (a ∷ as') = IsPlain a × AllPlain as'

pub add_lem :
    (b : Mbuffer) (bytes : List ℕ)
    → length b.written + length bytes ≤ b.len
    → mstream_add b bytes ≡ some (record b { written = b.written ++ bytes })
unfolding mstream_add
add_lem b bytes room = rw (le→ltb b.len (length b.written + length bytes) room) refl

pub getw_lem :
    (s : Mstream) (a b : ℕ) (bytes rest : List ℕ)
    → Holds s (a ∷ b ∷ bytes) rest
    → mstream_getw s ≡ ok (some ((0 * 256 + a) * 256 + b, skip 2 s))
unfolding mstream_getw mstream_get
getw_lem s a b bytes rest h =
    let room : ltb (mstream_can_read s) 2 ≡ false =
      le→ltb (mstream_can_read s) 2 (omega (arith, can_read_lem s (a ∷ b ∷ bytes) rest h)) in
    rw (room, h.at) refl

module _ (a : AttrValue) (plain : IsPlain a) (more rest : List ℕ) (s : Mstream)
    (h : Holds s (attr_bytes a ++ more) rest) (st : Attrs) where
  abbrev s3 : Mstream
  s3 = skip 1 (skip 1 (skip 1 s))

  at_type : Holds (skip 1 s) (a.type ∷ length a.value ∷ (a.value ++ more)) rest
  at_type = skip_lem s (a.flag ∷ []) (a.type ∷ length a.value ∷ (a.value ++ more)) rest h

  at_length : Holds (skip 1 (skip 1 s)) (length a.value ∷ (a.value ++ more)) rest
  at_length = skip_lem (skip 1 s) (a.type ∷ []) (length a.value ∷ (a.value ++ more)) rest at_type

  at_value : Holds s3 (a.value ++ more) rest
  at_value = skip_lem (skip 1 (skip 1 s)) (length a.value ∷ []) (a.value ++ more) rest at_length

  pub at_next : Holds (skip (length a.value) s3) more rest
  at_next = skip_lem s3 a.value more rest at_value

  size_lem : minus 16 (plus 16 (length a.value) s3.position) s.position ≡ length (attr_bytes a)
  size_lem = omega (arith, h.ends, h.fits, length-append a.value more)

  -- The state after the attribute.
  abbrev pub taken : Attrs
  taken =
      if a.type == bgp_as_path
      then record st { as_path = attr_bytes a }
      else record st { b = record st.b { written = st.b.written ++ attr_bytes a } }

  module _
      (room : (a.type == bgp_as_path) ≡ false
        → length st.b.written + length (attr_bytes a) ≤ st.b.len) where
    take_attr_lem : take_attr a.type s.position (length a.value) s3 st ≡ ok (some taken)
    unfolding take_attr
    take_attr_lem = elim (Bool-cases (a.type == bgp_as_path)) [
      | inl t ↦
          rw
            (
              eq_ne a.type bgp_mp_reach plain.no_reach,
              eq_ne a.type bgp_mp_unreach plain.no_unreach,
              t,
              size_lem,
              bytes_lem s (attr_bytes a) more rest h,
            )
            refl
      | inr f ↦
          rw
            (
              eq_ne a.type bgp_mp_reach plain.no_reach,
              eq_ne a.type bgp_mp_unreach plain.no_unreach,
              f,
              size_lem,
              bytes_lem s (attr_bytes a) more rest h,
              add_lem st.b (attr_bytes a) (room f),
            )
            refl
    ]

    enough : ltb (mstream_can_read s3) (length a.value) ≡ false
    enough =
        le→ltb (mstream_can_read s3) (length a.value) (
          omega
            (arith, can_read_lem s3 (a.value ++ more) rest at_value, length-append a.value more))

    pub read_attr_lem : read_attr s st ≡ ok (some (skip (length a.value) s3, taken))
    unfolding read_attr read_length
    read_attr_lem =
        rw
          (
            getc_lem s a.flag (a.type ∷ length a.value ∷ (a.value ++ more)) rest h,
            getc_lem (skip 1 s) a.type (length a.value ∷ (a.value ++ more)) rest at_type,
            plain.short,
            getc_lem (skip 1 (skip 1 s)) (length a.value) (a.value ++ more) rest at_length,
            enough,
            take_attr_lem,
          )
          refl

-- The buffer has room for the basic attributes.
abbrev pub HasRoom : List AttrValue → Attrs → Type 0
HasRoom as' st = length st.b.written + length (basics as') ≤ st.b.len

abbrev pub all_taken : List AttrValue → Attrs → Attrs
all_taken as' st = record st {
  b = record st.b { written = st.b.written ++ basics as' };
  as_path = path_of as' st.as_path;
}

pub attrs_loop_lem :
    (as' : List AttrValue) (rest : List ℕ) (fuel : ℕ) (s : Mstream) (st : Attrs)
    → AllPlain as'
    → Holds s (encode_attrs as') rest
    → HasRoom as' st
    → length as' < fuel
    → attrs_loop fuel s st ≡ ok (some (all_taken as' st))
unfolding attrs_loop
attrs_loop_lem as' rest zero s st plain h room few = absurd (omega (arith, few))
attrs_loop_lem [] rest (suc fuel) s st plain h room few =
    rw (can_read_lem s [] rest h, append-nil st.b.written) refl
attrs_loop_lem (a ∷ as') rest (suc fuel) s st plain h room few =
    let more : (mstream_can_read s == 0) ≡ false =
      eq_ne (mstream_can_read s) 0
        (λ z. absurd (omega (arith, z, can_read_lem s (encode_attrs (a ∷ as')) rest h))) in
    let next = skip (length a.value) (skip 1 (skip 1 (skip 1 s))) in
    let at = at_next a plain.0 (encode_attrs as') rest s h st in
    elim (Bool-cases (a.type == bgp_as_path)) [
      | inl t ↦
          let read =
            read_attr_lem a plain.0 (encode_attrs as') rest s h st
              (λ f. absurd (let wrong = sym t ∙ f in cc)) in
          let skipped : basics (a ∷ as') ≡ basics as' = rw t refl in
          let fits : HasRoom as' (record st { as_path = attr_bytes a }) =
            subst (λ z. length st.b.written + length z ≤ st.b.len) skipped room in
          let later =
            attrs_loop_lem as' rest fuel next (record st { as_path = attr_bytes a }) plain.1 at fits
              (omega (arith, few)) in
          rw (more, read, t) later
      | inr f ↦
          let kept : basics (a ∷ as') ≡ attr_bytes a ++ basics as' = rw f refl in
          let both : length st.b.written + length (attr_bytes a ++ basics as') ≤ st.b.len =
            subst (λ z. length st.b.written + length z ≤ st.b.len) kept room in
          let first : length st.b.written + length (attr_bytes a) ≤ st.b.len =
            omega (arith, both, length-append (attr_bytes a) (basics as')) in
          let read = read_attr_lem a plain.0 (encode_attrs as') rest s h st (λ _. first) in
          let st' : Attrs = record st {
            b = record st.b { written = st.b.written ++ attr_bytes a };
          } in
          let fits : HasRoom as' st' = omega (
            arith,
            both,
            length-append (attr_bytes a) (basics as'),
            length-append st.b.written (attr_bytes a),
          ) in
          let later = attrs_loop_lem as' rest fuel next st' plain.1 at fits (omega (arith, few)) in
          rw (more, read, f)
            (later
              ∙ ap
                  (λ w. ok (
                    some (record st {
                      b = record st.b { written = w };
                      as_path = path_of as' st.as_path;
                    })))
                  (append_assoc st.b.written (attr_bytes a) (basics as')))
    ]
