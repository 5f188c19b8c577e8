-- ===== src/Acl/Lists.antt =====
-- Util/acl.c: the named lists in LoginSettings.rootAcl.
use bgpmon.Base.{
  ℕ, zero, suc, List, [], ◌∷◌, ◌++◌, Option, none, some, Bool, true, false, Result, ok, err,
  null_pointer, out_of_bounds, or_fault, ◌>>=◌, if◌then◌else◌, ◌==◌, pos,
}
use bgpmon.Address.{Resolver}
use bgpmon.Acl.State.{deny, permit, AclRule, AccessControlList, LoginSettings}
use bgpmon.Acl.Edit.{create_acl_rule_any, remove_acl_rule, add_acl_rule}

abbrev pub acl_name_max_len : ℕ
acl_name_max_len = 200

-- strncpy: at most n bytes of a string; with n of them there is no NUL.
abbrev pub strncpy : ℕ → List ℕ → List ℕ
strncpy zero name = []
strncpy (suc n) [] = []
strncpy (suc n) (b ∷ name) = b ∷ strncpy n name

-- Whether strcmp of a name in a buffer of the given size and a string is 0. Where the name fills the
-- buffer and the string starts with it, the byte behind the buffer is read.
unfoldable pub same_name : ℕ → List ℕ → List ℕ → Result Bool
same_name zero stored name = err out_of_bounds
same_name (suc size) [] [] = ok true
same_name (suc size) [] (y ∷ name) = ok false
same_name (suc size) (x ∷ stored) [] = ok false
same_name (suc size) (x ∷ stored) (y ∷ name) =
    let rest = same_name size stored name in if x == y then rest else ok false

abbrev pub has_name : AccessControlList → List ℕ → Result Bool
has_name a name = same_name acl_name_max_len a.name name

-- The first list of that name.
unfoldable pub get_acl : List ℕ → List AccessControlList → Result (Option AccessControlList)
get_acl name [] = ok none
get_acl name (a ∷ as') =
    let rest = get_acl name as' in has_name a name >>= λ same. if same then ok (some a) else rest

abbrev pub new_acl : ℕ → List ℕ → AccessControlList
new_acl pointer name = record {
  pointer = pointer;
  name = strncpy acl_name_max_len name;
  rules = create_acl_rule_any 0 deny ∷ [];
}

-- The new list, with a rule that denies all, goes to the end; its pointer is returned.
unfoldable pub create_acl : LoginSettings → List ℕ → LoginSettings × ℕ
create_acl s name = (
  record s {
    root_acl = s.root_acl ++ new_acl s.next_pointer name ∷ [];
    next_pointer = suc s.next_pointer;
  },
  s.next_pointer,
)

abbrev pub put_back :
    AccessControlList → Option (List AccessControlList) → Option (List AccessControlList)
put_back a none = none
put_back a (some l) = some (a ∷ l)

-- The list without the first of that name; `none` when there is none of it.
unfoldable pub unlink : List ℕ → List AccessControlList → Result (Option (List AccessControlList))
unlink name [] = ok none
unlink name (a ∷ as') =
    let rest = unlink name as' >>= λ o. ok (put_back a o) in
    has_name a name >>= λ same. if same then ok (some as') else rest

-- removeACL. With no list of that name currentAcl is NULL, and its nextList is read.
unfoldable pub remove_acl : LoginSettings → List ℕ → Result LoginSettings
remove_acl s name =
    unlink name s.root_acl >>= λ o. or_fault o null_pointer >>= λ l. ok (record s { root_acl = l })

-- An edit of the list at a pointer.
unfoldable pub edit : ℕ → List AclRule → List AccessControlList → List AccessControlList
edit p rules [] = []
edit p rules (a ∷ as') =
    if a.pointer == p then record a { rules = rules } ∷ as' else a ∷ edit p rules as'

-- "permitall": the rule that permits all goes before the one that denies all, which is removed.
abbrev pub permit_all_rules : Resolver → List AclRule → Result (List AclRule)
permit_all_rules resolver rules = add_acl_rule resolver rules (pos 0) none none permit >>= λ added.
    remove_acl_rule added (pos 1) >>= λ (left, _). ok left

-- "denyall" and "permitall" in ASCII
abbrev pub deny_all : List ℕ
deny_all = 100 ∷ 101 ∷ 110 ∷ 121 ∷ 97 ∷ 108 ∷ 108 ∷ []

abbrev pub permit_all : List ℕ
permit_all = 112 ∷ 101 ∷ 114 ∷ 109 ∷ 105 ∷ 116 ∷ 97 ∷ 108 ∷ 108 ∷ []

unfoldable pub init_acl_settings : Resolver → LoginSettings → Result LoginSettings
init_acl_settings resolver s =
    let (s1, denyall) = create_acl s deny_all in
    let (s2, permitall) = create_acl s1 permit_all in
    permit_all_rules resolver (create_acl_rule_any 0 deny ∷ []) >>= λ rules. ok (record s2 {
      root_acl = edit permitall rules s2.root_acl;
      mrt_acl = some denyall;
      cli_acl = some permitall;
      client_update_acl = some permitall;
      client_rib_acl = some permitall;
    })
