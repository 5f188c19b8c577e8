-- ===== src/Acl/Numbering.antt =====
-- The numbers of the rules of a list, as rules are added and removed (Util/acl.c).
use Prim.Native.String.{String}
use bgpmon.Base.{
  subst, ℕ, zero, suc, ◌+◌, ◌≡◌, ◌≤◌, refl, ap, ◌∙◌, true, false, List, [], ◌∷◌, ◌++◌, Option, none,
  some, Result, ok, err, null_pointer, arith, ◌>>=◌, ℤ, pos, negsuc, length,
}
use bgpmon.Address.{Resolver}
use bgpmon.Acl.State.{AccessRule, AclRule}
use bgpmon.Acl.Edit.{
  reindex_from, reindex_acl, find_index, remove_acl_rule, locate, insert_rule, new_index, make_rule,
  add_acl_rule,
}

-- Each rule carries its position, the first being i.
abbrev pub Numbered : ℕ → List AclRule → Type 0
Numbered i [] = Unit {0}
Numbered i (r ∷ rs) = (r.index ≡ i) × Numbered (suc i) rs

ok-injective : {a b : List AclRule} → ok a ≡ ok b → a ≡ b
ok-injective e = cc

reindex_from-Numbered : (i : ℕ) (rs : List AclRule) → Numbered i (reindex_from i rs)
unfolding reindex_from
reindex_from-Numbered i [] = tt
reindex_from-Numbered i (r ∷ rs) = (refl, reindex_from-Numbered (suc i) rs)

-- In a numbered list the rule of index i + n is the one at place n.
find_index-Numbered :
    (before after : List AclRule) (rule : AclRule) (i : ℕ)
    → Numbered i (before ++ rule ∷ after)
    → find_index (pos (i + length before)) (before ++ rule ∷ after) ≡ some (before, rule, after)
unfolding find_index
find_index-Numbered [] after rule i h = ground arith
find_index-Numbered (r ∷ before) after rule i h =
    let rest : find_index (pos (i + suc (length before))) (before ++ rule ∷ after)
        ≡ some (before, rule, after) =
      ap (λ k. find_index (pos k) (before ++ rule ∷ after)) (omega arith)
      ∙ find_index-Numbered before after rule (suc i) h.1 in
    ground (arith, rest)

find_index-missing :
    (rs : List AclRule) (i n : ℕ) → Numbered i rs → i + length rs ≤ n → find_index (pos n) rs ≡ none
unfolding find_index
find_index-missing [] i n h le = refl
find_index-missing (r ∷ rs) i n h le = ground (arith, find_index-missing rs (suc i) n h.1)

removed :
    (i : ℤ) (r x : AclRule) (rs b a : List AclRule)
    → find_index i (r ∷ rs) ≡ some (b, x, a)
    → remove_acl_rule (r ∷ rs) i ≡ ok (reindex_acl (b ++ a), true)
unfolding remove_acl_rule
removed i r x rs b a e = rw (e, remove_acl_rule)

found :
    (before after : List AclRule) (rule : AclRule)
    → Numbered 0 (before ++ rule ∷ after)
    → find_index (pos (length before)) (before ++ rule ∷ after) ≡ some (before, rule, after)
found before after rule h =
    ap (λ k. find_index (pos k) (before ++ rule ∷ after)) (omega arith)
    ∙ find_index-Numbered before after rule 0 h

-- removeACLRule on a numbered list takes out the rule at that place, and the rest is numbered
-- again.
pub remove_acl_rule_lem :
    (before after : List AclRule) (rule : AclRule)
    → Numbered 0 (before ++ rule ∷ after)
    → (remove_acl_rule (before ++ rule ∷ after) (pos (length before))
        ≡ ok (reindex_acl (before ++ after), true))
      × Numbered 0 (reindex_acl (before ++ after))
unfolding reindex_acl
remove_acl_rule_lem [] after rule h =
    (removed _ rule rule after [] after (found [] after rule h), reindex_from-Numbered 0 after)
remove_acl_rule_lem (b ∷ before) after rule h = (
  removed _ b rule (before ++ rule ∷ after) (b ∷ before) after (found (b ∷ before) after rule h),
  reindex_from-Numbered 0 (b ∷ before ++ after),
)

-- On a numbered list an index past the end removes nothing, and removing from an empty list reads
-- through NULL.
pub remove_acl_rule_missing :
    (r : AclRule) (rs : List AclRule) (n : ℕ)
    → Numbered 0 (r ∷ rs)
    → length (r ∷ rs) ≤ n
    → (remove_acl_rule (r ∷ rs) (pos n) ≡ ok (r ∷ rs, false))
      × (remove_acl_rule [] (pos n) ≡ err null_pointer)
unfolding remove_acl_rule
remove_acl_rule_missing r rs n h le =
    (rw (find_index-missing (r ∷ rs) 0 n h (omega arith), remove_acl_rule), refl)

added-Numbered :
    (m : Result (List AclRule)) (l : List AclRule)
    → (m >>= λ rs. ok (reindex_acl rs)) ≡ ok l
    → Numbered 0 l
unfolding reindex_acl
added-Numbered (ok rs) l e = subst (Numbered 0) (ok-injective e) (reindex_from-Numbered 0 rs)
added-Numbered (err x) l e = cc

made-Numbered :
    (m : Result AclRule) (f : AclRule → Result (List AclRule)) (l : List AclRule)
    → (m >>= λ rule. f rule >>= λ rs. ok (reindex_acl rs)) ≡ ok l
    → Numbered 0 l
made-Numbered (ok rule) f l e = added-Numbered (f rule) l e
made-Numbered (err x) f l e = cc

-- Whatever the target, a list that addACLRule returns is numbered 0, 1, and so on.
pub add_acl_rule-Numbered :
    (resolver : Resolver) (rules rules' : List AclRule) (target : ℤ) (address mask : Option String)
    (access : AccessRule)
    → add_acl_rule resolver rules target address mask access ≡ ok rules'
    → Numbered 0 rules'
unfolding add_acl_rule
add_acl_rule-Numbered resolver rules rules' target address mask access e =
    let (b, c) = locate target 0 rules in
    made-Numbered (make_rule resolver (new_index target b c) address mask access)
      (insert_rule target b c) rules' e

-- Where a rule goes: to the front at 0, to the end below 0, and otherwise to its target, but before
-- the last rule at the latest.
abbrev pub insert_at : ℕ → List AclRule → AclRule → List AclRule
insert_at zero l rule = rule ∷ l
insert_at (suc n) [] rule = rule ∷ []
insert_at (suc n) (r ∷ []) rule = rule ∷ r ∷ []
insert_at (suc n) (r ∷ s ∷ l) rule = r ∷ insert_at n (s ∷ l) rule

abbrev pub place : ℤ → List AclRule → AclRule → Result (List AclRule)
place (negsuc n) rules rule = ok (rules ++ rule ∷ [])
place (pos zero) rules rule = ok (rule ∷ rules)
place (pos (suc n)) [] rule = err null_pointer
place (pos (suc n)) (r ∷ []) rule = err null_pointer
place (pos (suc n)) (r ∷ s ∷ l) rule = ok (insert_at (suc n) (r ∷ s ∷ l) rule)

locate_end : (n i : ℕ) (rs : List AclRule) → let (b, c) = locate (negsuc n) i rs in b ++ c ≡ rs
unfolding locate
locate_end n i [] = refl
locate_end n i (r ∷ []) = refl
locate_end n i (r ∷ s ∷ rs) = ap (◌∷◌ r) (locate_end n (suc i) (s ∷ rs))

locate-insert_at :
    (n i k : ℕ) (r : AclRule) (rs : List AclRule) (rule : AclRule)
    → k ≡ i + n
    → let (b, c) = locate (pos k) i (r ∷ rs) in b ++ rule ∷ c ≡ insert_at n (r ∷ rs) rule
unfolding locate
locate-insert_at zero i k r [] rule e = refl
locate-insert_at (suc n) i k r [] rule e = refl
locate-insert_at zero i k r (s ∷ rs) rule e = ground arith
locate-insert_at (suc n) i k r (s ∷ rs) rule e =
    ground (arith, locate-insert_at n (suc i) k s rs rule (omega arith))

locate_past :
    (n : ℕ) (r s : AclRule) (rs : List AclRule)
    → locate (pos (suc n)) 0 (r ∷ s ∷ rs)
      ≡ (r ∷ (locate (pos (suc n)) 1 (s ∷ rs)).0, (locate (pos (suc n)) 1 (s ∷ rs)).1)
unfolding locate
locate_past n r s rs = ground arith

insert_rule-place :
    (target : ℤ) (rules : List AclRule) (rule : AclRule)
    → let (b, c) = locate target 0 rules in insert_rule target b c rule ≡ place target rules rule
unfolding insert_rule locate
insert_rule-place (negsuc n) rules rule = ap (λ l. ok (l ++ rule ∷ [])) (locate_end n 0 rules)
insert_rule-place (pos zero) [] rule = refl
insert_rule-place (pos zero) (r ∷ []) rule = refl
insert_rule-place (pos zero) (r ∷ s ∷ rs) rule = refl
insert_rule-place (pos (suc n)) [] rule = refl
insert_rule-place (pos (suc n)) (r ∷ []) rule = refl
insert_rule-place (pos (suc n)) (r ∷ s ∷ rs) rule =
    rw (locate_past n r s rs)
      (ap (λ l. ok (r ∷ l)) (locate-insert_at n 1 (suc n) s rs rule (omega arith)))

-- Where the new rule can be made, addACLRule puts it in its place and numbers the list again; with
-- a positive target and fewer than two rules it writes through NULL.
pub add_acl_rule_lem :
    (resolver : Resolver) (rules : List AclRule) (target : ℤ) (address mask : Option String)
    (access : AccessRule) (rule : AclRule)
    → make_rule resolver
        (new_index target (locate target 0 rules).0 (locate target 0 rules).1)
        address
        mask
        access
      ≡ ok rule
    → add_acl_rule resolver rules target address mask access
      ≡ (place target rules rule >>= λ l. ok (reindex_acl l))
unfolding add_acl_rule
add_acl_rule_lem resolver rules target address mask access rule e =
    rw e (rw (insert_rule-place target rules rule))
