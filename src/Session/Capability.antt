-- ===== src/Session/Capability.antt =====
-- What is checked of a peer's OPEN message (checkOneBgpCapability, checkOneBgpAnnCapability and
-- getASfromBgpCapability of Peering/bgppacket.c; checkCapabilities of Peering/peersession.c). The capabilities
-- that checkCapabilities gathers for the data of its notification are not modelled.
use bgpmon.Base.{
  ℕ, zero, suc, ◌+◌, ◌*◌, Bool, true, false, not, ◌&&◌, ◌||◌, List, [], ◌∷◌, none, some,
  if◌then◌else◌, ◌==◌, length, get_or,
}
use bgpmon.Session.State.{Capability, Action, refuse, allow, require, PeerCapabilityRequirement}

-- memcmp of the first n bytes is 0.
abbrev pub same_bytes : ℕ → List ℕ → List ℕ → Bool
same_bytes zero a b = true
same_bytes (suc n) a b = get_or a n 0 == get_or b n 0 && same_bytes n a b

-- Whether checkOneBgpCapability returns 0, and checkOneBgpAnnCapability, which is the same loop.
unfoldable pub check_one_bgp_capability : List Capability → ℕ → ℕ → List ℕ → Bool
check_one_bgp_capability [] code len value = false
check_one_bgp_capability (c ∷ cs) code len value =
    let rest = check_one_bgp_capability cs code len value in
    if c.code == code && (len == 0 || same_bytes len value c.value) then true else rest

-- fourbytesASnumber is 65; ntohl of the first four bytes.
unfoldable pub get_as_from_bgp_capability : List Capability → ℕ → ℕ
get_as_from_bgp_capability [] as' = as'
get_as_from_bgp_capability (c ∷ cs) as' =
    if c.code == 65
    then ((get_or c.value 0 0 * 256 + get_or c.value 1 0) * 256 + get_or c.value 2 0) * 256
      + get_or c.value 3 0
    else get_as_from_bgp_capability cs as'

-- How a requirement meets a capability of its code: by the code alone, by the value, or not.
pub data Match : Type 0 where
  generic longest unmatched : Match

unfoldable pub match_of : Capability → PeerCapabilityRequirement → Match
match_of c r =
    if c.code == r.code
    then elim r.check_value [
      | none ↦ generic
      | some v ↦
          if length v == length c.value && (length v == 0 || same_bytes (length v) v c.value)
          then longest
          else unmatched
    ]
    else unmatched

-- The flags of the inner loop.
pub record Found : Type 0 where
  pub longest_match_found : Bool
  pub refused_flag : Bool

-- The inner loop's body on these flags.
abbrev pub judge : Match → Action → Found → Found
judge unmatched action f = f
judge m require f = f
judge generic refuse f = if f.longest_match_found then f else record f { refused_flag = true }
judge generic allow f = if f.longest_match_found then f else record f { refused_flag = false }
judge longest refuse f =
    if f.longest_match_found then f else record { longest_match_found = true; refused_flag = true }
judge longest allow f =
    if f.longest_match_found then f else record { longest_match_found = true; refused_flag = false }

-- A required capability that is met gets its flag.
abbrev pub raise : Match → PeerCapabilityRequirement → PeerCapabilityRequirement
raise unmatched r = r
raise m r = elim r.action [ require ↦ record r { flag = true } | _ ↦ r ]

-- The loop over the requirements, for one capability: whether it is refused.
unfoldable pub refused : Capability → List PeerCapabilityRequirement → Found → Bool
refused c [] f = f.refused_flag
refused c (r ∷ rs) f = refused c rs (judge (match_of c r) r.action f)

unfoldable pub raise_all :
    Capability → List PeerCapabilityRequirement → List PeerCapabilityRequirement
raise_all c [] = []
raise_all c (r ∷ rs) = raise (match_of c r) r ∷ raise_all c rs

abbrev pub nothing_found : Found
nothing_found = record { longest_match_found = false; refused_flag = false }

-- The outer loop: the requirements with their flags, and whether a capability is refused.
unfoldable pub check_each :
    List Capability → List PeerCapabilityRequirement → List PeerCapabilityRequirement × Bool
check_each [] rs = (rs, false)
check_each (c ∷ cs) rs =
    let (rs', err_flag) = check_each cs (raise_all c rs) in
    (rs', refused c rs nothing_found || err_flag)

abbrev pub lacks : Action → Bool → Bool
lacks require flag = not flag
lacks _ flag = false

-- The last loop: a required capability without its flag.
unfoldable pub misses : List PeerCapabilityRequirement → Bool
misses [] = false
misses (r ∷ rs) = let rest = misses rs in if lacks r.action r.flag then true else rest

-- The requirements with their flags, and whether checkCapabilities returns eventNone.
unfoldable pub check_capabilities :
    List PeerCapabilityRequirement → List Capability → List PeerCapabilityRequirement × Bool
check_capabilities rs cs =
    let (rs', err_flag) = check_each cs rs in (rs', if err_flag || misses rs' then false else true)
