-- ===== src/Acl/Match.antt =====
-- Util/acl.c: which rule applies to a client.
use Prim.Native.Nat.{bit_or}
use bgpmon.Base.{
  ℕ, Bool, true, false, List, [], ◌∷◌, ◌++◌, Option, none, some, Result, ok, err, out_of_bounds,
  null_pointer, dangling, or_fault, ◌>>=◌, if◌then◌else◌, ◌==◌, replicate,
}
use bgpmon.Address.{Family, inet, inet6, other, SockAddr, same_family}
use bgpmon.Acl.State.{
  AccessRule, deny, AclRule, AccessControlList, LoginSettings, AclType, client_update, client_rib,
  cli, mrt, unknown,
}

-- memset to 0, and for a 32-bit address memcpy to the last 4 of the 16 bytes.
abbrev pub widen : Family → List ℕ → List ℕ
widen inet bytes = replicate 12 0 ++ bytes
widen inet6 bytes = bytes
widen other bytes = replicate 16 0

-- The loop over 16 bytes.
unfoldable pub is_address_in_range : List ℕ → List ℕ → List ℕ → Bool
is_address_in_range (c ∷ cs) (r ∷ rs) (m ∷ ms) =
    if bit_or c m == bit_or r m then is_address_in_range cs rs ms else false
is_address_in_range _ _ _ = true

-- The switch of isRuleApplicable. In the IPv6 case the mask too is copied to ruleAddress, and the
-- local `mask` keeps its zeros.
unfoldable pub in_rule : List ℕ → Family → List ℕ → List ℕ → Bool
in_rule client inet address mask =
    is_address_in_range client (replicate 12 0 ++ address) (replicate 12 0 ++ mask)
in_rule client inet6 address mask = is_address_in_range client mask (replicate 16 0)
in_rule client other address mask = is_address_in_range client (replicate 16 0) (replicate 16 0)

-- The address field of a mask read at the family of the rule. A sockaddr_in6 read as a sockaddr_in
-- gives its flow information, 0; the other way round the read leaves the structure.
abbrev pub read_as : Family → SockAddr → Result (List ℕ)
read_as inet m = if same_family m.family inet then ok m.bytes else ok (replicate 4 0)
read_as f m = if same_family m.family f then ok m.bytes else err out_of_bounds

unfoldable pub is_rule_applicable : List ℕ → Family → AclRule → Result Bool
is_rule_applicable client family rule = or_fault rule.address null_pointer >>= λ a.
    if same_family a.family family
    then elim a.family [
      | other ↦ ok (in_rule client other a.bytes [])
      | f ↦ or_fault rule.mask null_pointer >>= λ m.
          read_as f m >>= λ bytes. ok (in_rule client f a.bytes bytes)
    ]
    else ok false

-- allowAnyAddress == TRUE || isRuleApplicable(...) == TRUE
unfoldable pub applies : List ℕ → Family → AclRule → Result Bool
applies client family rule =
    if rule.allow_any_address then ok true else is_rule_applicable client family rule

-- "step through all the rules and find the first applicable rule"
unfoldable pub check_rules : List ℕ → Family → List AclRule → Result AccessRule
check_rules client family [] = ok deny
check_rules client family (rule ∷ rules) =
    let rest = check_rules client family rules in
    applies client family rule >>= λ b. if b then ok rule.access else rest

-- The pointer that the settings keep for a type of access.
abbrev pub setting : LoginSettings → AclType → Option ℕ
setting s client_update = s.client_update_acl
setting s client_rib = s.client_rib_acl
setting s cli = s.cli_acl
setting s mrt = s.mrt_acl
setting s unknown = none

-- Following a pointer: the list at it, unless that was freed.
unfoldable pub find_acl : ℕ → List AccessControlList → Option AccessControlList
find_acl p [] = none
find_acl p (a ∷ as') = if a.pointer == p then some a else find_acl p as'

unfoldable pub check_acl : LoginSettings → SockAddr → AclType → Result AccessRule
check_acl s sa type = elim (setting s type) [
  | none ↦ ok deny
  | some p ↦ or_fault (find_acl p s.root_acl) dangling >>= λ acl.
      check_rules (widen sa.family sa.bytes) sa.family acl.rules
]
