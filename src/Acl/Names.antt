-- ===== src/Acl/Names.antt =====
-- The named lists as a table: createACL, getACL and removeACL of Util/acl.c.
use bgpmon.Base.{
  ℕ, zero, suc, ◌≤◌, ◌<◌, ◌≡◌, ◌≢◌, refl, ap, ◌∙◌, true, false, Bool, List, [], ◌∷◌, ◌++◌, Option,
  none, some, ok, err, out_of_bounds, Result, ◌>>=◌, arith, inl, inr, Bool-cases, length,
  if◌then◌else◌, ◌==◌, ==_iff,
}
use bgpmon.Acl.State.{AccessControlList, LoginSettings}
use bgpmon.Acl.Lists.{
  acl_name_max_len, strncpy, same_name, has_name, get_acl, new_acl, create_acl, unlink, remove_acl,
}

same_name_self :
    (n : ℕ) (name : List ℕ) → length name < n → same_name n (strncpy n name) name ≡ ok true
unfolding same_name
same_name_self zero name lt = absurd (omega arith)
same_name_self (suc n) [] lt = refl
same_name_self (suc n) (b ∷ name) lt =
    rw ((==_iff b b).1 refl) (same_name_self n name (omega (arith, lt)))

same_name_long :
    (n : ℕ) (name : List ℕ)
    → n ≤ length name
    → same_name n (strncpy n name) name ≡ err out_of_bounds
unfolding same_name
same_name_long zero name le = refl
same_name_long (suc n) [] le = absurd (omega arith)
same_name_long (suc n) (b ∷ name) le =
    rw ((==_iff b b).1 refl) (same_name_long n name (omega (arith, le)))

same_name_other :
    (n : ℕ) (name other : List ℕ)
    → length name < n
    → name ≢ other
    → same_name n (strncpy n name) other ≡ ok false
unfolding same_name
same_name_other zero name other lt ne = absurd (omega arith)
same_name_other (suc n) [] [] lt ne = absurd (ne refl)
same_name_other (suc n) [] (y ∷ other) lt ne = refl
same_name_other (suc n) (x ∷ name) [] lt ne = refl
same_name_other (suc n) (x ∷ name) (y ∷ other) lt ne = elim (Bool-cases (x == y)) [
  | inl e ↦
      let same : x ≡ y = (==_iff x y).0 e in
      rw e (same_name_other n name other (omega (arith, lt)) (λ rest. ne (λ i. same i ∷ rest i)))
  | inr e ↦ rw e refl
]

-- What a comparison that precedes a result of a search gave.
skipped :
    (c : Result Bool) (a : AccessControlList) (rest : Result (Option AccessControlList))
    → (c >>= λ same. if same then ok (some a) else rest) ≡ ok none
    → (c ≡ ok false) × (rest ≡ ok none)
skipped (ok true) a rest e = absurd (cc)
skipped (ok false) a rest e = (refl, e)
skipped (err f) a rest e = absurd (cc)

module _ (name : List ℕ) (a : AccessControlList) where
  get_acl-absent :
      (l : List AccessControlList)
      → get_acl name l ≡ ok none
      → get_acl name (l ++ a ∷ []) ≡ get_acl name (a ∷ [])
  unfolding get_acl
  get_acl-absent [] h = refl
  get_acl-absent (x ∷ l) h =
      let (differs, absent) = skipped (has_name x name) x (get_acl name l) h in
      rw differs (get_acl-absent l absent)

  get_acl-other :
      (l : List AccessControlList)
      → has_name a name ≡ ok false
      → get_acl name (l ++ a ∷ []) ≡ get_acl name l
  unfolding get_acl
  get_acl-other [] e = rw e refl
  get_acl-other (x ∷ l) e =
      ap (λ z. has_name x name >>= λ same. if same then ok (some x) else z) (get_acl-other l e)

  unlink-absent :
      (l : List AccessControlList)
      → get_acl name l ≡ ok none
      → has_name a name ≡ ok true
      → unlink name (l ++ a ∷ []) ≡ ok (some l)
  unfolding get_acl unlink
  unlink-absent [] h e = rw e refl
  unlink-absent (x ∷ l) h e =
      let (differs, absent) = skipped (has_name x name) x (get_acl name l) h in
      rw (differs, unlink-absent l absent e) refl

module _ (s : LoginSettings) (name : List ℕ) (absent : get_acl name s.root_acl ≡ ok none) where
  -- Where getACL finds no list of a name of fewer than 200 bytes, createACL makes one that getACL
  -- finds under it and that denies all, another name finds what it did, and removeACL of the name
  -- restores the lists.
  pub create_acl_lem :
      (other : List ℕ)
      → length name < acl_name_max_len
      → name ≢ other
      → let (s', p) = create_acl s name in
        (get_acl name s'.root_acl ≡ ok (some (new_acl s.next_pointer name)))
        × (get_acl other s'.root_acl ≡ get_acl other s.root_acl)
        × (remove_acl s' name ≡ ok (record s' { root_acl = s.root_acl }))
  unfolding create_acl remove_acl get_acl
  create_acl_lem other short ne =
      let a : AccessControlList = new_acl s.next_pointer name in
      let here : has_name a name ≡ ok true = same_name_self acl_name_max_len name short in
      (
        get_acl-absent name a s.root_acl absent ∙ rw here refl,
        get_acl-other other a s.root_acl (same_name_other acl_name_max_len name other short ne),
        rw (unlink-absent name a s.root_acl absent here) refl,
      )

  -- Where getACL finds no list of a name of 200 bytes or more, createACL stores it without a NUL,
  -- and the next getACL of it reads past the buffer.
  pub create_acl_long :
      acl_name_max_len ≤ length name
      → get_acl name (create_acl s name).0.root_acl ≡ err out_of_bounds
  unfolding create_acl get_acl
  create_acl_long long =
      let a : AccessControlList = new_acl s.next_pointer name in
      let past : has_name a name ≡ err out_of_bounds = same_name_long acl_name_max_len name long in
      get_acl-absent name a s.root_acl absent ∙ rw past refl
