-- ===== src/Acl/Tests.antt =====
-- Concrete access control lists, and the theorems on them.

use bgpmon.Base.{
  ℕ, ◌≡◌, refl, ◌↔◌, ◌≢◌, Bool, true, false, List, [], ◌∷◌, Option, none, some, arith, ◌>>=◌, ltb,
  ◌&&◌, ok, err, null_pointer, pos, replicate,
}
use bgpmon.Address.{inet, inet6, SockAddr, Resolver}
use bgpmon.Acl.State.{deny, permit, label, AclRule}
use bgpmon.Acl.Match.{widen, in_rule, is_address_in_range, is_rule_applicable, applies, check_rules}
use bgpmon.Acl.Edit.{
  reindex_from, reindex_acl, create_acl_rule_any, locate, insert_rule, new_index, make_rule,
  remove_acl_rule, add_acl_rule,
}
use bgpmon.Acl.FirstMatch.{FirstAt, check_rules_granted}
use bgpmon.Acl.Range.{AllBytes, ipv4_masks, ipv6_rule_ignores_address}
use bgpmon.Acl.Numbering.{
  Numbered, place, remove_acl_rule_lem, remove_acl_rule_missing, add_acl_rule-Numbered,
  add_acl_rule_lem,
}
use bgpmon.Acl.State.{LoginSettings, cli, mrt}
use bgpmon.Acl.Match.{check_acl}
use bgpmon.Acl.Match.{setting, find_acl}
use bgpmon.Acl.Lists.{permit_all, same_name, new_acl, remove_acl}
use bgpmon.Acl.Initial.{no_settings, initial}
use bgpmon.Acl.Dangling.{remove_acl_dangles}
use bgpmon.Base.{dangling, length-replicate, out_of_bounds}
use bgpmon.Acl.Lists.{get_acl, create_acl}
use bgpmon.Acl.Names.{create_acl_lem, create_acl_long}

abbrev no_names : Resolver
no_names = record {
  getaddrinfo = λ _ _. record { family = inet; bytes = 10 ∷ 0 ∷ 0 ∷ 1 ∷ [] } ∷ [];
}

abbrev v4 : List ℕ → Option SockAddr
v4 bytes = some (record { family = inet; bytes = bytes })

-- 10.0.0.1 exactly.
abbrev one_host : AclRule
one_host = record {
  index = 0;
  allow_any_address = false;
  address = v4 (10 ∷ 0 ∷ 0 ∷ 1 ∷ []);
  address_string = "10.0.0.1";
  mask = v4 (0 ∷ 0 ∷ 0 ∷ 0 ∷ []);
  mask_string = "0.0.0.0";
  access = label;
}

-- 10.0.0.x
abbrev subnet : AclRule
subnet = record one_host { index = 1; mask = v4 (0 ∷ 0 ∷ 0 ∷ 255 ∷ []); access = permit }

abbrev all : AclRule
all = record one_host { index = 2; allow_any_address = true; access = deny }

abbrev rules : List AclRule
rules = one_host ∷ subnet ∷ all ∷ []

abbrev neighbour : List ℕ
neighbour = widen inet (10 ∷ 0 ∷ 0 ∷ 2 ∷ [])

subnet_first : FirstAt neighbour inet rules (one_host ∷ []) (all ∷ []) subnet
unfolding applies is_rule_applicable in_rule is_address_in_range
subnet_first = record { cut = refl; earlier = (refl, tt); hit = refl }

permitted : check_rules neighbour inet rules ≡ ok permit
unfolding check_rules applies is_rule_applicable in_rule is_address_in_range
permitted = refl

permit_not_deny : permit ≢ deny
permit_not_deny e = cc

granted_example :
    (before : List AclRule) × (rule : AclRule) × (after : List AclRule) × FirstAt neighbour inet
      rules before after rule
    × (rule.access ≡ permit)
granted_example = check_rules_granted neighbour inet rules permit permitted permit_not_deny

all_small : List ℕ → Bool
all_small [] = true
all_small (b ∷ bs) = ltb b 256 && all_small bs

all_small-AllBytes : (l : List ℕ) → all_small l ≡ true → AllBytes l
unfolding all_small
all_small-AllBytes [] h = tt
all_small-AllBytes (b ∷ bs) h = (ground arith, all_small-AllBytes bs (ground arith))

abbrev v4_bytes : ℕ → List ℕ
v4_bytes n = 10 ∷ 0 ∷ 0 ∷ n ∷ []

masks_example :
    ((in_rule neighbour inet (v4_bytes 1) (replicate 4 0) ≡ true) ↔ (v4_bytes 2 ≡ v4_bytes 1))
    × (in_rule neighbour inet (v4_bytes 1) (replicate 4 255) ≡ true)
unfolding all_small
masks_example =
    ipv4_masks (v4_bytes 2) (v4_bytes 1) refl refl (all_small-AllBytes (v4_bytes 2) refl)
      (all_small-AllBytes (v4_bytes 1) refl)

abbrev v6 : ℕ → List ℕ
v6 n = 32 ∷ 1 ∷ 0 ∷ 0 ∷ 0 ∷ 0 ∷ 0 ∷ 0 ∷ 0 ∷ 0 ∷ 0 ∷ 0 ∷ 0 ∷ 0 ∷ 0 ∷ n ∷ []

-- The client has the address of the rule, and the mask is that of a whole network.
ignores_example :
    (in_rule (widen inet6 (v6 5)) inet6 (v6 5) (replicate 16 255) ≡ true)
    ↔ (v6 5 ≡ replicate 16 255)
unfolding all_small
ignores_example =
    ipv6_rule_ignores_address (v6 5) (v6 5) (replicate 16 255) refl refl
      (all_small-AllBytes (v6 5) refl) (all_small-AllBytes (replicate 16 255) refl)

rules-Numbered : Numbered 0 rules
rules-Numbered = (refl, (refl, (refl, tt)))

remove_example :
    (remove_acl_rule rules (pos 1) ≡ ok (reindex_acl (one_host ∷ all ∷ []), true))
    × Numbered 0 (reindex_acl (one_host ∷ all ∷ []))
remove_example = remove_acl_rule_lem (one_host ∷ []) (all ∷ []) subnet rules-Numbered

missing_example :
    (remove_acl_rule rules (pos 3) ≡ ok (rules, false))
    × (remove_acl_rule [] (pos 3) ≡ err null_pointer)
missing_example =
    remove_acl_rule_missing one_host (subnet ∷ all ∷ []) 3 rules-Numbered (omega arith)

abbrev any_rule : AclRule
any_rule = record {
  index = 1;
  allow_any_address = true;
  address = none;
  address_string = "";
  mask = none;
  mask_string = "";
  access = permit;
}

abbrev longer : List AclRule
longer = reindex_acl (one_host ∷ any_rule ∷ subnet ∷ all ∷ [])

added : add_acl_rule no_names rules (pos 1) none none permit ≡ ok longer
unfolding add_acl_rule make_rule insert_rule locate create_acl_rule_any reindex_acl reindex_from
added = refl

adding_example : Numbered 0 longer
adding_example = add_acl_rule-Numbered no_names rules longer (pos 1) none none permit added

made :
    make_rule no_names
      (new_index (pos 1) (locate (pos 1) 0 rules).0 (locate (pos 1) 0 rules).1)
      none
      none
      permit
    ≡ ok any_rule
unfolding make_rule locate create_acl_rule_any
made = refl

add_example :
    add_acl_rule no_names rules (pos 1) none none permit
    ≡ (place (pos 1) rules any_rule >>= λ l. ok (reindex_acl l))
add_example = add_acl_rule_lem no_names rules (pos 1) none none permit any_rule made

abbrev visitor : SockAddr
visitor = record { family = inet; bytes = 10 ∷ 0 ∷ 0 ∷ 2 ∷ [] }

mrt_unused : setting (initial 0) mrt ≢ some 1
mrt_unused e = cc

dangles_example :
    (s : LoginSettings) × (remove_acl (initial 0) permit_all ≡ ok s)
    × (setting s cli ≡ some 1)
    × (check_acl s visitor cli ≡ err dangling)
    × (check_acl s visitor mrt ≡ check_acl (initial 0) visitor mrt)
unfolding find_acl get_acl same_name
dangles_example =
    remove_acl_dangles (initial 0) permit_all
      (record { pointer = 1; name = permit_all; rules = create_acl_rule_any 0 permit ∷ [] })
      (refl, (refl, tt)) refl cli mrt visitor refl mrt_unused

abbrev office : List ℕ
office = 111 ∷ []

abbrev home : List ℕ
home = 111 ∷ 112 ∷ []

names_differ : office ≢ home
names_differ e = cc

abbrev fresh : LoginSettings
fresh = no_settings 40

office_absent : get_acl office fresh.root_acl ≡ ok none
unfolding get_acl
office_absent = refl

names_example :
    let (s, p) = create_acl fresh office in
    (get_acl office s.root_acl ≡ ok (some (new_acl 40 office)))
    × (get_acl home s.root_acl ≡ get_acl home fresh.root_acl)
    × (remove_acl s office ≡ ok (record s { root_acl = [] }))
names_example = create_acl_lem fresh office office_absent home (omega arith) names_differ

abbrev long_name : List ℕ
long_name = replicate 200 97

long_absent : get_acl long_name fresh.root_acl ≡ ok none
unfolding get_acl
long_absent = refl

long_example : get_acl long_name (create_acl fresh long_name).0.root_acl ≡ err out_of_bounds
long_example =
    create_acl_long fresh long_name long_absent (rw (length-replicate {A = ℕ} 200 97) (omega arith))
