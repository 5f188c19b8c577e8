-- ===== src/Bgp/Encoding.antt =====
-- What BGP_serialize writes (Util/bgp.c), and what parseBGPUpdate reads of it.
use mathlib.Core.List.{append_assoc, append-nil}
use bgpmon.Base.{
  ℕ, suc, ◌+◌, ◌-◌, ◌%◌, ◌<◌, ◌≡◌, ◌≢◌, refl, sym, ap, ◌∙◌, List, [], ◌∷◌, ◌++◌, some, false,
  length, ok, arith, length-append,
}
use bgpmon.Labeling.Heaps.{eq_ne}
use bgpmon.Labeling.State.{Prefix}
use bgpmon.Labeling.Stream.{bytes_of}
use bgpmon.Labeling.Attrs.{is_extended}
use bgpmon.Labeling.Encoded.{encode}
use bgpmon.Labeling.Attributed.{AttrValue, encode_attrs, attr_bytes}
use bgpmon.Labeling.Messages.{UpdateMessage, be16, update_bytes}
use bgpmon.Bgp.Build.{BgpRoute, PathAttribute, BgpUpdate, length_bytes}
use bgpmon.Bgp.Serial.{
  emit_routes, emit_attribute, emit_attributes, calculate_length, attributes_length, routes_length,
  bgp_pattr_as_path,
}
use bgpmon.Bgp.Written.{at, emit_lem}

-- An IPv4 unicast prefix.
abbrev pub prefix_of : BgpRoute → Prefix
prefix_of r = record { afi = 1; safi = 1; p_len = r.length; paddr = r.prefix }

abbrev pub prefixes_of : List BgpRoute → List Prefix
prefixes_of [] = []
prefixes_of (r ∷ rs) = prefix_of r ∷ prefixes_of rs

abbrev pub AllWhole : List BgpRoute → Type 0
AllWhole [] = Unit {0}
AllWhole (r ∷ rs) = (length r.prefix ≡ length_bytes r.length) × AllWhole rs

abbrev pub value_of : PathAttribute → AttrValue
value_of a = record { flag = a.flags; type = a.code; value = a.value }

abbrev pub values_of : List PathAttribute → List AttrValue
values_of [] = []
values_of (a ∷ l) = value_of a ∷ values_of l

-- An attribute with a length of one byte that is no AS path.
pub record IsOther (a : PathAttribute) : Type 0 where
  pub no_path : a.code ≢ bgp_pattr_as_path
  pub short : is_extended a.flags ≡ false
  pub whole : length a.value ≡ a.length
  pub small : a.length < 256

abbrev pub AllOther : List PathAttribute → Type 0
AllOther [] = Unit {0}
AllOther (a ∷ l) = IsOther a × AllOther l

whole_bytes : (xs : List ℕ) (n : ℕ) → length xs ≡ n → bytes_of xs n ≡ some xs
whole_bytes [] n e = ap (bytes_of []) (sym e)
whole_bytes (x ∷ xs) n e =
    ap (bytes_of (x ∷ xs)) (sym e) ∙ rw (whole_bytes xs (length xs) refl) refl

pub emit_routes_lem :
    (rs : List BgpRoute) (pre : List ℕ) (n m : ℕ)
    → AllWhole rs
    → m ≡ length (encode (prefixes_of rs)) + n
    → emit_routes rs (at pre m) ≡ ok (at (pre ++ encode (prefixes_of rs)) n)
unfolding emit_routes
emit_routes_lem [] pre n m h e =
    let same : m ≡ n = omega (arith, e) in
    ap (λ z. ok (at z m)) (sym (append-nil pre)) ∙ ap (λ z. ok (at (pre ++ []) z)) same
emit_routes_lem (r ∷ rs) pre n m (whole, h) e =
    let first : List ℕ = pre ++ (r.length ∷ []) in
    let later : ℕ = length (encode (prefixes_of rs)) + n in
    let sizes : length (encode (prefixes_of (r ∷ rs)))
        ≡ suc (length r.prefix + length (encode (prefixes_of rs))) =
      ap suc (length-append r.prefix (encode (prefixes_of rs))) in
    rw
      (
        emit_lem pre (r.length ∷ []) (length r.prefix + later) m (omega (arith, e, sizes)),
        whole_bytes r.prefix (length_bytes r.length) whole,
        emit_lem first r.prefix later (length r.prefix + later) refl,
        emit_routes_lem rs (first ++ r.prefix) n later h refl,
      )
      (ap (λ z. ok (at z n))
        (append_assoc first r.prefix (encode (prefixes_of rs))
          ∙ append_assoc pre (r.length ∷ []) (r.prefix ++ encode (prefixes_of rs))))

length-routes :
    (rs : List BgpRoute) → AllWhole rs → length (encode (prefixes_of rs)) ≡ routes_length rs
length-routes [] h = refl
length-routes (r ∷ rs) (whole, h) =
    omega (arith, whole, length-routes rs h, length-append r.prefix (encode (prefixes_of rs)))

module _ (pointer : ℕ → ℕ) (atts : List PathAttribute) where
  emit_attribute_lem :
      (a : PathAttribute) (pre : List ℕ) (n m : ℕ)
      → IsOther a
      → m ≡ length (attr_bytes (value_of a)) + n
      → emit_attribute pointer atts a (at pre m) ≡ ok (at (pre ++ attr_bytes (value_of a)) n)
  unfolding emit_attribute
  emit_attribute_lem a pre n m h e =
      let first : List ℕ = pre ++ (a.flags ∷ a.code ∷ []) in
      let second : List ℕ = first ++ (a.length % 256 ∷ []) in
      let byte : a.length % 256 ≡ length a.value = omega (arith, h.whole, h.small) in
      rw
        (
          emit_lem pre (a.flags ∷ a.code ∷ []) (1 + length a.value + n) m (omega (arith, e)),
          h.short,
          eq_ne a.code bgp_pattr_as_path h.no_path,
          emit_lem first (a.length % 256 ∷ []) (length a.value + n) (1 + length a.value + n)
              (omega arith),
          whole_bytes a.value a.length h.whole,
          emit_lem second a.value n (length a.value + n) refl,
        )
        (ap (λ z. ok (at z n))
          (append_assoc first (a.length % 256 ∷ []) a.value
            ∙ append_assoc pre (a.flags ∷ a.code ∷ []) (a.length % 256 ∷ a.value)
            ∙ ap (λ z. pre ++ (a.flags ∷ a.code ∷ z ∷ a.value)) byte))

  pub emit_attributes_lem :
      (l : List PathAttribute) (pre : List ℕ) (n m : ℕ)
      → AllOther l
      → m ≡ length (encode_attrs (values_of l)) + n
      → emit_attributes pointer atts l (at pre m) ≡ ok (at (pre ++ encode_attrs (values_of l)) n)
  unfolding emit_attributes
  emit_attributes_lem [] pre n m h e =
      let same : m ≡ n = omega (arith, e) in
      ap (λ z. ok (at z m)) (sym (append-nil pre)) ∙ ap (λ z. ok (at (pre ++ []) z)) same
  emit_attributes_lem (a ∷ l) pre n m (other, h) e =
      let bytes : List ℕ = attr_bytes (value_of a) in
      let later : ℕ = length (encode_attrs (values_of l)) + n in
      let size : m ≡ length bytes + later =
        omega (arith, e, length-append bytes (encode_attrs (values_of l))) in
      rw
        (
          emit_attribute_lem a pre later m other size,
          emit_attributes_lem l (pre ++ bytes) n later h refl,
        )
        (ap (λ z. ok (at z n)) (append_assoc pre bytes (encode_attrs (values_of l))))

attributes_length_lem :
    (l : List PathAttribute)
    → AllOther l
    → attributes_length l ≡ ok (length (encode_attrs (values_of l)), 0)
unfolding attributes_length
attributes_length_lem [] h = refl
attributes_length_lem (a ∷ l) (other, h) =
    let bytes : List ℕ = attr_bytes (value_of a) in
    let size : 2 + 1 + a.length + length (encode_attrs (values_of l))
        ≡ length (bytes ++ encode_attrs (values_of l)) =
      omega (arith, other.whole, length-append bytes (encode_attrs (values_of l))) in
    rw (eq_ne a.code bgp_pattr_as_path other.no_path, attributes_length_lem l h, other.short)
      (ap (λ z. ok (z, 0)) size)

abbrev pub message_of : BgpUpdate → UpdateMessage
message_of u = record {
  withdrawn = prefixes_of u.withdrawn_routes;
  attrs = values_of u.path_atts;
  announced = prefixes_of u.nlris;
}

-- Routes with all their bytes, and attributes with lengths of one byte that are no AS paths.
pub record IsSimple (u : BgpUpdate) : Type 0 where
  pub withdrawn : AllWhole u.withdrawn_routes
  pub attributes : AllOther u.path_atts
  pub announced : AllWhole u.nlris

pub calculate_length_lem :
    (u : BgpUpdate)
    → IsSimple u
    → calculate_length u ≡ ok (19 + length (update_bytes (message_of u)))
unfolding calculate_length
calculate_length_lem u h =
    let w : List ℕ = encode (prefixes_of u.withdrawn_routes) in
    let a : List ℕ = encode_attrs (values_of u.path_atts) in
    let e : List ℕ = encode (prefixes_of u.nlris) in
    let size : 19 + 2 + routes_length u.withdrawn_routes + 2 + length a + routes_length u.nlris - 0
        ≡ 19 + length (update_bytes (message_of u)) =
      omega (
        arith,
        length-routes u.withdrawn_routes h.withdrawn,
        length-routes u.nlris h.announced,
        length-append w (be16 (length a) ++ (a ++ e)),
        length-append a e,
      ) in
    rw (attributes_length_lem u.path_atts h.attributes) (ap ok size)
