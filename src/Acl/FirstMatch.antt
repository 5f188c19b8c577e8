-- ===== src/Acl/FirstMatch.antt =====
-- The rule that decides in checkACL (Util/acl.c).
use mathlib.Core.List.{append-nil}
use bgpmon.Base.{
  ◌⊎◌, inl, inr, ℕ, ◌≡◌, refl, sym, ap, ◌∙◌, ◌≢◌, Bool, true, false, List, [], ◌∷◌, ◌++◌, Result,
  ok, err, arith, ◌>>=◌, if◌then◌else◌,
}
use bgpmon.Address.{Family}
use bgpmon.Acl.State.{AccessRule, deny, AclRule}
use bgpmon.Acl.Match.{applies, check_rules}

module _ (client : List ℕ) (family : Family) where
  -- No rule of the list applies, and each test returns.
  abbrev pub NoneApplies : List AclRule → Type 0
  NoneApplies [] = Unit {0}
  NoneApplies (r ∷ rs) = (applies client family r ≡ ok false) × NoneApplies rs

  -- The list is cut at the first rule that applies.
  pub record FirstAt (rules before after : List AclRule) (rule : AclRule) : Type 0 where
    pub cut : rules ≡ before ++ rule ∷ after
    pub earlier : NoneApplies before
    pub hit : applies client family rule ≡ ok true

  decide : Result Bool → AccessRule → Result AccessRule → Result AccessRule
  decide answer access rest = answer >>= λ b. if b then ok access else rest

  check_rules_skip :
      (before rest : List AclRule)
      → NoneApplies before
      → check_rules client family (before ++ rest) ≡ check_rules client family rest
  unfolding check_rules
  check_rules_skip [] rest h = refl
  check_rules_skip (r ∷ rs) rest h = rw h.0 (check_rules_skip rs rest h.1)

  check_rules_hit :
      (rules before after : List AclRule) (rule : AclRule)
      → FirstAt rules before after rule
      → check_rules client family rules ≡ ok rule.access
  unfolding check_rules
  check_rules_hit rules before after rule f =
      ap (check_rules client family) f.cut
      ∙ check_rules_skip before (rule ∷ after) f.earlier
      ∙ (rw f.hit)

  -- The verdict of the first rule that applies stands, and access is denied when no rule applies.
  pub check_rules_first :
      (rules before after : List AclRule) (rule : AclRule)
      → FirstAt rules before after rule
      → (check_rules client family rules ≡ ok rule.access)
        × (check_rules client family before ≡ ok deny)
  unfolding check_rules
  check_rules_first rules before after rule f = (
    check_rules_hit rules before after rule f,
    ap (check_rules client family) (sym (append-nil before)) ∙ check_rules_skip before [] f.earlier,
  )

  answered :
      (answer : Result Bool) (access verdict : AccessRule) (rest : Result AccessRule)
      → decide answer access rest ≡ ok verdict
      → ((answer ≡ ok true) × (access ≡ verdict)) ⊎ ((answer ≡ ok false) × (rest ≡ ok verdict))
  unfolding decide
  answered (ok true) access verdict rest e = inl (refl, ground arith)
  answered (ok false) access verdict rest e = inr (refl, e)
  answered (err x) access verdict rest e = cc

  -- Where checkACL's loop gives a verdict other than DENY, there is a first rule that applies,
  -- and the verdict is its access.
  pub check_rules_granted :
      (rules : List AclRule) (verdict : AccessRule)
      → check_rules client family rules ≡ ok verdict
      → verdict ≢ deny
      → (before : List AclRule) × (rule : AclRule) × (after : List AclRule) × FirstAt rules before
          after rule
        × (rule.access ≡ verdict)
  unfolding check_rules decide
  check_rules_granted [] verdict e ne = absurd (ne (ground arith))
  check_rules_granted (r ∷ rs) verdict e ne =
      elim (answered (applies client family r) r.access verdict (check_rules client family rs) e) [
        | inl (hit, a) ↦ ([], r, rs, record { cut = refl; earlier = tt; hit = hit }, a)
        | inr (miss, rest) ↦
            let (before, rule, after, f, a) = check_rules_granted rs verdict rest ne in
            (
              r ∷ before,
              rule,
              after,
              record { cut = ap (◌∷◌ r) f.cut; earlier = (miss, f.earlier); hit = f.hit },
              a,
            )
      ]
