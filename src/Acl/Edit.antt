-- ===== src/Acl/Edit.antt =====
-- Util/acl.c: rules are made, added, renumbered and removed.
use Prim.Native.String.{String}
use text.Mathlib.Text.{◌==◌ as str_eq}
use bgpmon.Base.{
  ℕ, zero, suc, ◌+◌, Bool, true, false, ◌||◌, List, [], ◌∷◌, ◌++◌, Option, none, some, Result, ok,
  err, null_pointer, ◌>>=◌, if◌then◌else◌, ℤ, pos, negsuc, equals, length,
}
use bgpmon.Address.{Resolver, create_addr_info}
use bgpmon.Acl.State.{AccessRule, AclRule}

unfoldable pub reindex_from : ℕ → List AclRule → List AclRule
reindex_from i [] = []
reindex_from i (r ∷ rs) = record r { index = i } ∷ reindex_from (suc i) rs

unfoldable pub reindex_acl : List AclRule → List AclRule
unfolding reindex_from
reindex_acl rs = reindex_from 0 rs

-- createACLRuleAny. The strings of a rule for any address stay empty.
unfoldable pub create_acl_rule_any : ℕ → AccessRule → AclRule
create_acl_rule_any index access = record {
  index = index;
  allow_any_address = true;
  address = none;
  address_string = "";
  mask = none;
  mask_string = "";
  access = access;
}

-- The do loop that looks for the rule to remove: what stands before it, itself, and the rest.
unfoldable pub find_index : ℤ → List AclRule → Option (List AclRule × AclRule × List AclRule)
find_index i [] = none
find_index i (r ∷ rs) =
    if equals i r.index
    then some ([], r, rs)
    else elim (find_index i rs) [ none ↦ none | some (b, x, a) ↦ some (r ∷ b, x, a) ]

-- removeACLRule: the rules and whether one was removed. The loop body runs on the head at once.
unfoldable pub remove_acl_rule : List AclRule → ℤ → Result (List AclRule × Bool)
unfolding reindex_acl
remove_acl_rule [] index = err null_pointer
remove_acl_rule (r ∷ rs) index = elim (find_index index (r ∷ rs)) [
  | none ↦ ok (r ∷ rs, false)
  | some (before, _, after) ↦ ok (reindex_acl (before ++ after), true)
]

-- The while loop of addACLRule, from new index i on: what it passes, and the list at currentRule.
unfoldable pub locate : ℤ → ℕ → List AclRule → List AclRule × List AclRule
locate target i [] = ([], [])
locate target i (r ∷ []) = ([], r ∷ [])
locate target i (r ∷ s ∷ rs) =
    let (before, rest) = locate target (suc i) (s ∷ rs) in
    if equals target i then ([], r ∷ s ∷ rs) else (r ∷ before, rest)

-- The three cases of the insertion. In the middle, previousRule may be NULL.
unfoldable pub insert_rule : ℤ → List AclRule → List AclRule → AclRule → Result (List AclRule)
insert_rule (pos zero) before rest rule = ok (rule ∷ rest)
insert_rule (pos (suc n)) [] rest rule = err null_pointer
insert_rule (pos (suc n)) (b ∷ before) rest rule = ok ((b ∷ before) ++ rule ∷ rest)
insert_rule (negsuc n) before rest rule = ok (before ++ rest ++ rule ∷ [])

-- newIndex; reindexACL sets it again.
abbrev pub new_index : ℤ → List AclRule → List AclRule → ℕ
new_index target [] [] = 0
new_index (negsuc n) before rest = length before + 1
new_index target before rest = length before

-- Whether the new rule is for any address: a missing string, or the word "any".
abbrev pub is_any : Option String → Bool
is_any none = true
is_any (some s) = str_eq s "any"

module _ (resolver : Resolver) where
  -- The code copies ADDR_MAX_CHARS bytes from each of the two strings; a string is
  -- kept here as its characters, and what lies past its end is not modelled.
  unfoldable pub create_acl_rule : ℕ → String → String → AccessRule → Result AclRule
  create_acl_rule index address mask access = create_addr_info resolver address >>= λ a.
      create_addr_info resolver mask >>= λ m. ok (record {
        index = index;
        allow_any_address = false;
        address = a;
        address_string = address;
        mask = m;
        mask_string = mask;
        access = access;
      })

  unfoldable pub make_rule : ℕ → Option String → Option String → AccessRule → Result AclRule
  make_rule index none mask access = ok (create_acl_rule_any index access)
  make_rule index (some a) none access = ok (create_acl_rule_any index access)
  make_rule index (some a) (some m) access =
      if is_any (some a) || is_any (some m)
      then ok (create_acl_rule_any index access)
      else create_acl_rule index a m access

  unfoldable pub add_acl_rule :
      List AclRule → ℤ → Option String → Option String → AccessRule → Result (List AclRule)
  unfolding reindex_acl
  add_acl_rule rules target address mask access =
      let (before, rest) = locate target 0 rules in
      make_rule (new_index target before rest) address mask access >>= λ rule.
      insert_rule target before rest rule >>= λ rules'. ok (reindex_acl rules')
