-- ===== src/Labeling/Tests.antt =====
-- Runs and witnesses of the RIB.
use bgpmon.Base.{
  ℕ, List, [], ◌∷◌, none, some, ok, err, out_of_bounds, Result, Option, ◌>>=◌, ◌≡◌, ◌⊎◌, true, refl,
  ap, arith, length, replicate,
}
use bgpmon.Labeling.State.{Prefix, Rib, Stats}
use bgpmon.Labeling.Hash.{attr_hash, prefix_hash}
use bgpmon.Labeling.Table.{link, unlink}
use bgpmon.Labeling.Attributes.{
  Attribute, search_attr_node, search_from, after_search, create_attr_node, remove_prefix_from_attr,
  remove_attr_node, destroy_attr_node, find_node,
}
use bgpmon.Labeling.Prefixes.{
  Bmf, labelled, apply_reachable_prefix, apply_unreachable_prefix, find_prefix, announce,
  announce_unknown, attach, announce_known, same_path, move_prefix, collect, bgpmon_message_append,
  withdraw_found, forget_prefix,
}
use bgpmon.Labeling.Nlri.{BgpNlri, nlri_check}
use bgpmon.Labeling.Updates.{reach, ParsedBgpUpdate, apply_bgp_update}
use bgpmon.Labeling.View.{withdraw_label, rib_view}
use bgpmon.Labeling.Inv.{IsValid, IsSmall}
use bgpmon.Labeling.Inv.Made.{Searched}
use bgpmon.Labeling.Inv.Lookup.{search_attr_node_lem}
use bgpmon.Labeling.Inv.Withdraw.{Withdrawn, apply_unreachable_prefix_lem}
use bgpmon.Labeling.Inv.Announce.{AnnounceGoal, apply_reachable_prefix_lem}
use bgpmon.Labeling.Parse.{parse_bgp_update}
use bgpmon.Labeling.Process.{label, msg_from_peer, BmfMessage, process_bmf}
use bgpmon.Labeling.Attributed.{AttrValue, AllPlain}
use bgpmon.Labeling.Messages.{UpdateMessage, Parsed}
use bgpmon.Labeling.Parsed.{parse_bgp_update_lem}
use bgpmon.Labeling.Delivered.{packet, Processes, follow, process_bmf_lem}
use bgpmon.Labeling.Start.{create_rib, create_rib-IsValid}
use bgpmon.Labeling.Encoded.{encode, IsIn}
use bgpmon.Labeling.Corrupt.{nlri_check_lem}
use bgpmon.Labeling.Batch.{Encodes}
use bgpmon.Labeling.Refine.{Stage, searched-IsValid}
use bgpmon.Labeling.Parts.{RouteUpdate, HoldsUpdate, update_routes}
use bgpmon.Labeling.Whole.{apply_bgp_update_lem}

abbrev no_stats : Stats
no_stats = record {
  nann_rcvd = 0;
  dann_rcvd = 0;
  spath_rcvd = 0;
  dpath_rcvd = 0;
  with_rcvd = 0;
  duwi_rcvd = 0;
  memory_used = 0;
  prefix_count = 0;
  attr_count = 0;
}

abbrev empty_rib : Rib
empty_rib = create_rib 16 16 8 8 no_stats

empty_IsValid : IsValid empty_rib
empty_IsValid = create_rib-IsValid 16 16 8 8 no_stats

empty_IsSmall : IsSmall empty_rib
empty_IsSmall = record { few_prefixes = omega arith; few_attributes = omega arith }

abbrev net : ℕ → Prefix
net n = record { afi = 1; safi = 1; p_len = 8; paddr = n ∷ [] }

abbrev attributes : ℕ → Attribute
attributes n = record { basic_attrlen = 2; bytes = n ∷ n ∷ [] }

abbrev announce_net : ℕ → List ℕ → ℕ → Rib × Option Bmf → Result (Rib × Option Bmf)
announce_net n path attr (r, bmf) = search_attr_node path (attributes attr) r >>= λ (a, r').
    apply_reachable_prefix (net n) a 7 r' bmf

abbrev message_of : Result (Rib × Option Bmf) → Option Bmf
message_of (ok (r, bmf)) = bmf
message_of (err e) = none

-- Two announcements, one again, new attributes, a new AS path and two withdrawals: the labels.
labels_run :
    message_of (
      (((((announce_net 10 (1 ∷ []) 9 (empty_rib, some []) >>= announce_net 11 (1 ∷ []) 9)
              >>= announce_net 10 (1 ∷ []) 9)
            >>= announce_net 10 (1 ∷ []) 8)
          >>= announce_net 10 (2 ∷ []) 8)
        >>= (λ x. apply_unreachable_prefix (net 10) x.0 x.1))
      >>= (λ x. apply_unreachable_prefix (net 10) x.0 x.1))
    ≡ some (3 ∷ 3 ∷ 4 ∷ 6 ∷ 5 ∷ 1 ∷ 2 ∷ [])
unfolding search_attr_node search_from after_search create_attr_node link unlink attr_hash
    prefix_hash apply_reachable_prefix find_prefix announce announce_unknown attach announce_known
    same_path move_prefix remove_prefix_from_attr collect remove_attr_node destroy_attr_node
    find_node bgpmon_message_append apply_unreachable_prefix withdraw_found forget_prefix
labels_run = refl

search_example :
    (a : ℕ) × (r : Rib) × (search_attr_node (1 ∷ []) (attributes 9) empty_rib ≡ ok (a, r))
    × Searched empty_rib.prefixes empty_rib (1 ∷ []) (9 ∷ 9 ∷ []) a r
search_example =
    search_attr_node_lem empty_rib.prefixes empty_rib empty_IsValid.by_attr (1 ∷ []) (attributes 9)

withdraw_example :
    (r' : Rib) × (apply_unreachable_prefix (net 10) empty_rib (some [])
      ≡ ok (r', labelled (some []) (withdraw_label (rib_view empty_rib (net 10)))))
    × Withdrawn (net 10) empty_rib r'
withdraw_example =
    apply_unreachable_prefix_lem (net 10) empty_rib (some []) empty_IsValid empty_IsSmall

abbrev nlri_of : List Prefix → BgpNlri
nlri_of ps = record { nlri_len = length (encode ps); afi = 1; safi = 1; nlri = encode ps }

abbrev update : ParsedBgpUpdate
update = record {
  unreach_nlri = nlri_of (net 10 ∷ []);
  reach_nlri = nlri_of (net 11 ∷ net 12 ∷ []);
  mp_nlri = (reach, nlri_of (net 13 ∷ [])) ∷ [];
  as_path = 1 ∷ [];
  attr = attributes 9;
}

abbrev route_update : RouteUpdate
route_update = record {
  withdrawn = net 10 ∷ [];
  mp = (reach, net 13 ∷ []) ∷ [];
  announced = net 11 ∷ net 12 ∷ [];
}

net-IsIn : (n : ℕ) → IsIn 1 1 (net n)
net-IsIn n = record { same_afi = refl; same_safi = refl; small = omega arith; whole = refl }

holds_one : (n : ℕ) → Encodes (nlri_of (net n ∷ [])) (net n ∷ [])
holds_one n = record {
  rest = [];
  all = (net-IsIn n, tt);
  memory = refl;
  whole = refl;
  fits = omega arith;
}

update-HoldsUpdate : HoldsUpdate update route_update
update-HoldsUpdate = record {
  withdrawn = holds_one 10;
  mp = (refl, holds_one 13, tt);
  announced = record {
    rest = [];
    all = (net-IsIn 11, (net-IsIn 12, tt));
    memory = refl;
    whole = refl;
    fits = omega arith;
  };
  some_basic = omega arith;
  some_attr = omega arith;
}

update_example :
    Stage
      (apply_bgp_update 7 update)
      (update_routes 16 (1 ∷ [], 9 ∷ 9 ∷ []) route_update)
      3
      2
      empty_rib
      (some [])
update_example =
    apply_bgp_update_lem 7 update route_update update-HoldsUpdate empty_rib (some []) empty_IsValid
      (omega arith) (omega arith)

-- An NLRI of one byte that wants three more.
abbrev corrupt : BgpNlri
corrupt = record { nlri_len = 1; afi = 1; safi = 1; nlri = 24 ∷ 10 ∷ 0 ∷ 0 ∷ [] }

corrupt_example : (nlri_check corrupt ≡ ok true) ⊎ (nlri_check corrupt ≡ err out_of_bounds)
corrupt_example = nlri_check_lem corrupt (omega arith) (omega arith)

found :
    (a : ℕ) × (r : Rib) × (search_attr_node (1 ∷ []) (attributes 9) empty_rib ≡ ok (a, r))
    × Searched empty_rib.prefixes empty_rib (1 ∷ []) (9 ∷ 9 ∷ []) a r
found =
    search_attr_node_lem empty_rib.prefixes empty_rib empty_IsValid.by_attr (1 ∷ []) (attributes 9)

found_IsSmall : IsSmall found.1
found_IsSmall = record {
  few_prefixes = omega (arith, ap length found.3.same_prefixes);
  few_attributes = omega (arith, found.3.fewer);
}

announce_example : AnnounceGoal found.1 (some []) found.0 7 (1 ∷ [], 9 ∷ 9 ∷ []) (net 10)
announce_example =
    apply_reachable_prefix_lem (net 10) found.0 7 found.1 (some []) (1 ∷ [], 9 ∷ 9 ∷ [])
      (searched-IsValid empty_rib (1 ∷ []) (9 ∷ 9 ∷ []) found.0 found.1 empty_IsValid found.3)
      found_IsSmall found.3.has

-- An AS path and an origin.
abbrev path_attr : AttrValue
path_attr = record { flag = 64; type = 2; value = 2 ∷ 1 ∷ 0 ∷ 7 ∷ [] }

abbrev origin_attr : AttrValue
origin_attr = record { flag = 64; type = 1; value = 0 ∷ [] }

abbrev message : UpdateMessage
message = record {
  withdrawn = net 10 ∷ [];
  attrs = origin_attr ∷ path_attr ∷ [];
  announced = net 11 ∷ net 12 ∷ [];
}

message_AllPlain : AllPlain (origin_attr ∷ path_attr ∷ [])
message_AllPlain = (
  record {
    short = refl;
    no_reach = λ e. absurd (omega (arith, e));
    no_unreach = λ e. absurd (omega (arith, e));
  },
  (
    record {
      short = refl;
      no_reach = λ e. absurd (omega (arith, e));
      no_unreach = λ e. absurd (omega (arith, e));
    },
    tt,
  ),
)

abbrev marker : List ℕ
marker = replicate 16 255

abbrev bmf : BmfMessage
bmf = record { timestamp = 7; type = msg_from_peer; message = packet marker message }

delivered_example :
    Processes (process_bmf label empty_rib bmf) label bmf (follow message empty_rib) 2 empty_rib
delivered_example =
    process_bmf_lem marker message label bmf empty_rib refl refl (net-IsIn 10, tt)
      (net-IsIn 11, (net-IsIn 12, tt)) message_AllPlain (omega arith) (omega arith) refl
      empty_IsValid (omega arith) (omega arith)

read_back_example :
    (p : ParsedBgpUpdate) × (parse_bgp_update (packet marker message) 40 ≡ ok (some p))
    × Parsed message p
read_back_example =
    parse_bgp_update_lem (net 10 ∷ []) (net 11 ∷ net 12 ∷ []) (net-IsIn 10, tt)
      (net-IsIn 11, (net-IsIn 12, tt)) (origin_attr ∷ path_attr ∷ []) (packet marker message) []
      message_AllPlain refl (omega arith)
