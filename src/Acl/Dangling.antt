-- ===== src/Acl/Dangling.antt =====
-- The pointers of LoginSettings to a list that removeACL frees (Util/acl.c).
use bgpmon.Base.{
  ℕ, ◌≡◌, ◌≢◌, refl, sym, ap, ◌∙◌, true, false, Bool, List, [], ◌∷◌, Option, none, some, ok, err,
  Result, ◌>>=◌, dangling, inl, inr, Bool-cases, Option-cases, if◌then◌else◌, ◌==◌, ==_iff, ◌⊎◌,
}
use bgpmon.Address.{SockAddr}
use bgpmon.Acl.State.{
  AccessControlList, LoginSettings, AclType, client_update, client_rib, cli, mrt, unknown,
}
use bgpmon.Acl.Match.{setting, find_acl, check_acl}
use bgpmon.Acl.Lists.{has_name, get_acl, unlink, remove_acl}

-- No two lists stand at the same address.
abbrev pub Apart : List AccessControlList → Type 0
Apart [] = Unit {0}
Apart (a ∷ l) = (find_acl a.pointer l ≡ none) × Apart l

-- How a comparison decides a search.
decided :
    (c : Result Bool) (x a : AccessControlList) (rest : Result (Option AccessControlList))
    → (c >>= λ same. if same then ok (some x) else rest) ≡ ok (some a)
    → ((c ≡ ok true) × (x ≡ a)) ⊎ ((c ≡ ok false) × (rest ≡ ok (some a)))
decided (ok true) x a rest e = inl (refl, cc)
decided (ok false) x a rest e = inr (refl, e)
decided (err f) x a rest e = absurd (cc)

at_pointer :
    (p : ℕ) (x : AccessControlList) (l : List AccessControlList)
    → x.pointer ≡ p
    → find_acl p (x ∷ l) ≡ some x
unfolding find_acl
at_pointer p x l e = rw ((==_iff x.pointer p).1 e) refl

not_at :
    (p : ℕ) (x : AccessControlList) (l : List AccessControlList)
    → x.pointer ≢ p
    → find_acl p (x ∷ l) ≡ find_acl p l
unfolding find_acl
not_at p x l ne = elim (Bool-cases (x.pointer == p)) [
  | inl e ↦ absurd (ne ((==_iff x.pointer p).0 e))
  | inr e ↦ rw e refl
]

-- A list that is found by its name stands at its address.
named_stands :
    (name : List ℕ) (a : AccessControlList) (l : List AccessControlList)
    → get_acl name l ≡ ok (some a)
    → find_acl a.pointer l ≢ none
unfolding get_acl
named_stands name a [] e = absurd (cc)
named_stands name a (x ∷ l) e = λ gone.
    absurd (elim (decided (has_name x name) x a (get_acl name l) e) [
      | inl (_, same) ↦
          let here : find_acl a.pointer (x ∷ l) ≡ some x =
            at_pointer a.pointer x l (ap (λ z. z.pointer) same) in
          cc
      | inr (_, later) ↦ elim (Bool-cases (x.pointer == a.pointer)) [
        | inl at ↦
            let here : find_acl a.pointer (x ∷ l) ≡ some x =
              at_pointer a.pointer x l ((==_iff x.pointer a.pointer).0 at) in
            cc
        | inr off ↦
            let ne : x.pointer ≢ a.pointer = λ at. absurd (
              let wrong : (x.pointer == a.pointer) ≡ true = (==_iff x.pointer a.pointer).1 at in
              cc) in
            named_stands name a l later (sym (not_at a.pointer x l ne) ∙ gone)
      ]
    ])

-- What is left where a list was taken out: not that one, and all others.
pub record TakenOut (p : ℕ) (l l' : List AccessControlList) : Type 0 where
  pub gone : find_acl p l' ≡ none
  pub others : (q : ℕ) → q ≢ p → find_acl q l' ≡ find_acl q l

unlink_lem :
    (name : List ℕ) (a : AccessControlList) (l : List AccessControlList)
    → Apart l
    → get_acl name l ≡ ok (some a)
    → (l' : List AccessControlList) × (unlink name l ≡ ok (some l')) × TakenOut a.pointer l l'
unfolding get_acl unlink
unlink_lem name a [] apart e = absurd (cc)
unlink_lem name a (x ∷ l) (alone, apart) e =
    elim (decided (has_name x name) x a (get_acl name l) e) [
      | inl (found, same) ↦
          let at : x.pointer ≡ a.pointer = ap (λ z. z.pointer) same in
          (
            l,
            rw found refl,
            record {
              gone = ap (λ p. find_acl p l) (sym at) ∙ alone;
              others = λ q ne. sym (not_at q x l (λ here. ne (sym here ∙ at)));
            },
          )
      | inr (differs, later) ↦
          let (l', run, left) = unlink_lem name a l apart later in
          let ne : x.pointer ≢ a.pointer =
            λ at. named_stands name a l later (ap (λ p. find_acl p l) (sym at) ∙ alone) in
          (
            x ∷ l',
            rw (differs, run) refl,
            record {
              gone = not_at a.pointer x l' ne ∙ left.gone;
              others = λ q other. elim (Bool-cases (x.pointer == q)) [
                | inl at ↦
                    let here : x.pointer ≡ q = (==_iff x.pointer q).0 at in
                    at_pointer q x l' here ∙ sym (at_pointer q x l here)
                | inr off ↦
                    let away : x.pointer ≢ q = λ at.
                      absurd
                        (let wrong : (x.pointer == q) ≡ true = (==_iff x.pointer q).1 at in cc) in
                    not_at q x l' away ∙ left.others q other ∙ sym (not_at q x l away)
              ];
            },
          )
    ]

-- Removal keeps every setting.
same_setting :
    (s : LoginSettings) (l : List AccessControlList) (type : AclType)
    → setting (record s { root_acl = l }) type ≡ setting s type
same_setting s l client_update = refl
same_setting s l client_rib = refl
same_setting s l cli = refl
same_setting s l mrt = refl
same_setting s l unknown = refl

check_found :
    (s : LoginSettings) (l : List AccessControlList) (sa : SockAddr) (type : AclType)
    → ((q : ℕ) → setting s type ≡ some q → find_acl q l ≡ find_acl q s.root_acl)
    → check_acl (record s { root_acl = l }) sa type ≡ check_acl s sa type
unfolding check_acl
check_found s l sa type same = elim (Option-cases (setting s type)) [
  | inl n ↦ rw (same_setting s l type, check_acl, n) refl
  | inr (q, n) ↦ rw (same_setting s l type, check_acl, n, same q n) refl
]

module _ (s : LoginSettings) (name : List ℕ) (a : AccessControlList) (apart : Apart s.root_acl)
    (named : get_acl name s.root_acl ≡ ok (some a)) where
  -- Where no two lists stand at the same address, removeACL of a list that some type of access
  -- uses succeeds and leaves the setting of that type: the next check of it reads freed memory. A
  -- type that does not use the list is checked as before.
  pub remove_acl_dangles :
      (type kept : AclType) (sa : SockAddr)
      → setting s type ≡ some a.pointer
      → setting s kept ≢ some a.pointer
      → (s' : LoginSettings) × (remove_acl s name ≡ ok s')
        × (setting s' type ≡ some a.pointer)
        × (check_acl s' sa type ≡ err dangling)
        × (check_acl s' sa kept ≡ check_acl s sa kept)
  unfolding remove_acl check_acl
  remove_acl_dangles type kept sa used unused =
      let (l', run, left) = unlink_lem name a s.root_acl apart named in
      let still : setting (record s { root_acl = l' }) type ≡ some a.pointer =
        same_setting s l' type ∙ used in
      (
        record s { root_acl = l' },
        rw run refl,
        still,
        rw (still, check_acl, left.gone) refl,
        check_found s l' sa kept (λ q at. left.others q (λ same. unused (at ∙ ap some same))),
      )
