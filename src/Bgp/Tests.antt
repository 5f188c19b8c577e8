-- ===== src/Bgp/Tests.antt =====
-- Runs and witnesses of the updates that are built.
use bgpmon.Base.{ℕ, [], ◌∷◌, some, ok, true, ◌≡◌, refl, arith}
use bgpmon.Bgp.Build.{
  PathAttribute, BgpUpdate, BgpMessage, bgp_update, insert_attribute, add_path_attribute_to_update,
  add_nlri_to_update,
}
use bgpmon.Labeling.Delivered.{packet}
use bgpmon.Bgp.Serial.{serialize}
use bgpmon.Bgp.Encoding.{IsSimple, message_of}
use bgpmon.Bgp.Serialized.{all_ones, serialize_lem}
use bgpmon.Bgp.Attributes.{AttributeAdded, add_path_attribute_to_update_lem}

abbrev next_hop : PathAttribute
next_hop = record { flags = 64; code = 3; length = 4; value = 10 ∷ 0 ∷ 0 ∷ 1 ∷ [] }

abbrev origin : ℕ → PathAttribute
origin n = record { flags = 64; code = 1; length = 1; value = n ∷ [] }

abbrev update : BgpUpdate
update = record { withdrawn_routes = []; path_atts = origin 0 ∷ next_hop ∷ []; nlris = [] }

abbrev message : BgpMessage
message = record { length = 0; type = bgp_update; type_specific = some update }

-- The origin is replaced.
replaced : insert_attribute (origin 2) update.path_atts ≡ origin 2 ∷ next_hop ∷ []
unfolding insert_attribute
replaced = refl

-- The default route, with a length of 0, is not announced.
default_route : add_nlri_to_update 0 (some []) message ≡ ok (message, true)
unfolding add_nlri_to_update
default_route = refl

added_example :
    (u : BgpUpdate) × (add_path_attribute_to_update 64 2 6
        (some (2 ∷ 1 ∷ 0 ∷ 0 ∷ 0 ∷ 7 ∷ []))
        message
      ≡ ok (record message { type_specific = some u }, true))
    × AttributeAdded
        (record { flags = 64; code = 2; length = 6; value = 2 ∷ 1 ∷ 0 ∷ 0 ∷ 0 ∷ 7 ∷ [] })
        update
        u
added_example =
    add_path_attribute_to_update_lem 64 2 6 (2 ∷ 1 ∷ 0 ∷ 0 ∷ 0 ∷ 7 ∷ [])
      (2 ∷ 1 ∷ 0 ∷ 0 ∷ 0 ∷ 7 ∷ []) message update refl refl ((omega arith, tt), (tt, tt))
      (omega arith) refl

abbrev announcement : BgpUpdate
announcement = record {
  withdrawn_routes = record { length = 8; prefix = 10 ∷ [] } ∷ [];
  path_atts = origin 0 ∷ next_hop ∷ [];
  nlris = record { length = 12; prefix = 172 ∷ 16 ∷ [] } ∷ [];
}

announcement-IsSimple : IsSimple announcement
announcement-IsSimple = record {
  withdrawn = (refl, tt);
  attributes = (
    record {
      no_path = λ e. absurd (omega (arith, e));
      short = refl;
      whole = refl;
      small = omega arith;
    },
    (
      record {
        no_path = λ e. absurd (omega (arith, e));
        short = refl;
        whole = refl;
        small = omega arith;
      },
      tt,
    ),
  );
  announced = (refl, tt);
}

abbrev announcing : BgpMessage
announcing = record message { type_specific = some announcement }

serialized_example :
    serialize (λ i. 0) announcing
    ≡ ok (record announcing { length = 39 }, some (packet all_ones (message_of announcement)))
serialized_example =
    serialize_lem (λ i. 0) announcement announcement-IsSimple announcing refl refl (omega arith)
