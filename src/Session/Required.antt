-- ===== src/Session/Required.antt =====
-- The required capabilities (checkCapabilities of Peering/peersession.c).
use bgpmon.Base.{
  ℕ, zero, suc, ◌≡◌, ◌≢◌, refl, ap, subst, ◌∙◌, Bool, true, false, List, [], ◌∷◌, some, arith,
  get_elem?, ◌⊎◌, inl, inr,
}
use bgpmon.Session.State.{Capability, Action, refuse, allow, require, PeerCapabilityRequirement}
use bgpmon.Session.Capability.{
  Match, generic, longest, unmatched, match_of, raise, raise_all, check_each, lacks, misses,
  check_capabilities,
}

lacks-false : (a : Action) (flag : Bool) → a ≡ require → lacks a flag ≡ false → flag ≡ true
lacks-false require flag e h = ground arith
lacks-false refuse flag e h = cc
lacks-false allow flag e h = cc

no_miss :
    (rs : List PeerCapabilityRequirement) (i : ℕ) (r : PeerCapabilityRequirement)
    → get_elem? rs i ≡ some r
    → r.action ≡ require
    → misses rs ≡ false
    → r.flag ≡ true
unfolding misses
no_miss [] i r at a m = cc
no_miss (x ∷ rs) zero r at a m =
    let same : x ≡ r = cc in
    lacks-false r.action r.flag a (subst (λ y. lacks y.action y.flag ≡ false) same (ground arith))
no_miss (x ∷ rs) (suc i) r at a m = no_miss rs i r at a (ground arith)

raise_all_at :
    (c : Capability) (rs : List PeerCapabilityRequirement) (i : ℕ) (r : PeerCapabilityRequirement)
    → get_elem? rs i ≡ some r
    → get_elem? (raise_all c rs) i ≡ some (raise (match_of c r) r)
unfolding raise_all
raise_all_at c [] i r at = cc
raise_all_at c (x ∷ rs) zero r at =
    let same : x ≡ r = cc in ap (λ y. some (raise (match_of c y) y)) same
raise_all_at c (x ∷ rs) (suc i) r at = raise_all_at c rs i r at

-- Some capability of the list meets the requirement.
abbrev pub IsMet : List Capability → PeerCapabilityRequirement → Type 0
IsMet cs r = (c : Capability) × (j : ℕ) × (get_elem? cs j ≡ some c) × (match_of c r ≢ unmatched)

later-IsMet :
    (c : Capability) (cs : List Capability) (r : PeerCapabilityRequirement)
    → IsMet cs r
    → IsMet (c ∷ cs) r
later-IsMet c cs r (d, j, at, ne) = (d, suc j, at, ne)

unmatched_or : (m : Match) → (m ≡ unmatched) ⊎ (m ≢ unmatched)
unmatched_or generic = inr (λ e. cc)
unmatched_or longest = inr (λ e. cc)
unmatched_or unmatched = inl refl

each-IsMet :
    (cs : List Capability) (rs : List PeerCapabilityRequirement) (i : ℕ)
    (r : PeerCapabilityRequirement)
    → get_elem? rs i ≡ some r
    → r.action ≡ require
    → r.flag ≡ false
    → misses (check_each cs rs).0 ≡ false
    → IsMet cs r
unfolding check_each
each-IsMet [] rs i r at a f m = let t = no_miss rs i r at a m in cc
each-IsMet (c ∷ cs) rs i r at a f m = elim (unmatched_or (match_of c r)) [
  | inl e ↦ later-IsMet c cs r (
      each-IsMet cs (raise_all c rs) i r (raise_all_at c rs i r at ∙ ap (λ k. some (raise k r)) e) a
        f m)
  | inr ne ↦ (c, zero, refl, ne)
]

-- When checkCapabilities passes, each required capability whose flag was not yet set is met by one
-- that the peer announced.
pub check_capabilities_requires :
    (rs : List PeerCapabilityRequirement) (cs : List Capability) (i : ℕ)
    (r : PeerCapabilityRequirement)
    → (check_capabilities rs cs).1 ≡ true
    → get_elem? rs i ≡ some r
    → r.action ≡ require
    → r.flag ≡ false
    → IsMet cs r
unfolding check_capabilities
check_capabilities_requires rs cs i r pass at a f = each-IsMet cs rs i r at a f (ground arith)
