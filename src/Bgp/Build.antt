-- ===== src/Bgp/Build.antt =====
-- The functions that build an update, with the structures of Util/bgp.h (Util/bgp.c). A pointer that
-- may be NULL is an option, but for the message itself. An array with its count is a list.
use bgpmon.Base.{
  ℕ, ◌+◌, ◌*◌, ◌/◌, ◌%◌, List, [], ◌∷◌, ◌++◌, Option, none, some, Bool, true, false, ltb, ◌==◌,
  if◌then◌else◌, Result, ok, out_of_bounds, or_fault, ◌>>=◌,
}
use bgpmon.Labeling.Stream.{bytes_of}

pub data BgpType : Type 0 where
  bgp_open bgp_update bgp_notification bgp_keepalive : BgpType

abbrev pub bgp_max_prefix_len_bytes_ipv4 : ℕ
bgp_max_prefix_len_bytes_ipv4 = 4

-- A withdrawn route or an announced prefix: its length in bits and its bytes.
pub record BgpRoute : Type 0 where
  pub length : ℕ
  pub prefix : List ℕ

pub record PathAttribute : Type 0 where
  pub flags : ℕ
  pub code : ℕ
  pub length : ℕ
  pub value : List ℕ

pub record BgpUpdate : Type 0 where
  pub withdrawn_routes : List BgpRoute
  pub path_atts : List PathAttribute
  pub nlris : List BgpRoute

pub record BgpMessage : Type 0 where
  pub length : ℕ
  pub type : BgpType
  pub type_specific : Option BgpUpdate

abbrev pub create_message : BgpType → Option BgpMessage
create_message bgp_update = some (record {
  length = 0;
  type = bgp_update;
  type_specific = some (record { withdrawn_routes = []; path_atts = []; nlris = [] });
})
create_message _ = none

-- The first checks of the three functions; the others are left to the code for the update. False
-- stands for -1.
abbrev pub on_update :
    (BgpUpdate → Result (BgpUpdate × Bool)) → BgpMessage → Result (BgpMessage × Bool)
on_update f msg = elim msg.type [
  | bgp_update ↦ elim msg.type_specific [
    | none ↦ ok (msg, false)
    | some u ↦ f u >>= λ (u', done). ok (record msg { type_specific = some u' }, done)
  ]
  | _ ↦ ok (msg, false)
]

abbrev pub length_bytes : ℕ → ℕ
length_bytes n = if n % 8 == 0 then n / 8 else n / 8 + 1

abbrev pub route_of : ℕ → List ℕ → Result BgpRoute
route_of n memory = or_fault (bytes_of memory (length_bytes n)) out_of_bounds >>= λ bytes.
    ok (record { length = n; prefix = bytes })

-- A length of 0 adds nothing and is no failure.
abbrev pub add_route :
    (BgpRoute → BgpUpdate) → BgpUpdate → ℕ → Option (List ℕ) → Result (BgpUpdate × Bool)
add_route f u n none = ok (u, n == 0)
add_route f u n (some memory) =
    let added = route_of n memory >>= λ r. ok (f r, true) in
    if n == 0
    then ok (u, true)
    else if ltb (bgp_max_prefix_len_bytes_ipv4 * 8) n
    then ok (u, false)
    else added

unfoldable pub add_withdrawn_route_to_update :
    ℕ → Option (List ℕ) → BgpMessage → Result (BgpMessage × Bool)
add_withdrawn_route_to_update n prefix msg =
    on_update
      (λ u.
        add_route (λ r. record u { withdrawn_routes = u.withdrawn_routes ++ (r ∷ []) }) u n prefix)
      msg

unfoldable pub add_nlri_to_update : ℕ → Option (List ℕ) → BgpMessage → Result (BgpMessage × Bool)
add_nlri_to_update n prefix msg =
    on_update (λ u. add_route (λ r. record u { nlris = u.nlris ++ (r ∷ []) }) u n prefix) msg

-- The loops that copy the array: what has a smaller code comes first, and an attribute with the same
-- code is replaced.
unfoldable pub insert_attribute : PathAttribute → List PathAttribute → List PathAttribute
insert_attribute a [] = a ∷ []
insert_attribute a (b ∷ l) =
    let rest = insert_attribute a l in
    if ltb b.code a.code then b ∷ rest else if ltb a.code b.code then a ∷ b ∷ l else a ∷ l

abbrev pub add_attribute : ℕ → ℕ → ℕ → Option (List ℕ) → BgpUpdate → Result (BgpUpdate × Bool)
add_attribute flags code n none u = ok (u, n == 0)
add_attribute flags code n (some memory) u =
    let added = or_fault (bytes_of memory n) out_of_bounds >>= λ bytes.
    let a : PathAttribute = record { flags = flags; code = code; length = n; value = bytes } in
    ok (record u { path_atts = insert_attribute a u.path_atts }, true) in
    if n == 0 then ok (u, true) else added

unfoldable pub add_path_attribute_to_update :
    ℕ → ℕ → ℕ → Option (List ℕ) → BgpMessage → Result (BgpMessage × Bool)
add_path_attribute_to_update flags code n value msg =
    on_update (add_attribute flags code n value) msg
