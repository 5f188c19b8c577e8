-- ===== src/Acl/Initial.antt =====
-- Whom the initial settings admit (initACLSettings and checkACL of Util/acl.c).

use bgpmon.Base.{ℕ, suc, ◌≡◌, [], ◌∷◌, none, some, ok, arith}
use bgpmon.Address.{SockAddr, Resolver}
use bgpmon.Acl.State.{
  AccessRule, deny, permit, LoginSettings, AclType, client_update, client_rib, cli, mrt, unknown,
}
use bgpmon.Acl.Match.{applies, check_rules, find_acl, check_acl}
use bgpmon.Acl.Edit.{
  reindex_from, reindex_acl, create_acl_rule_any, find_index, remove_acl_rule, locate, insert_rule,
  make_rule, add_acl_rule,
}
use bgpmon.Acl.Lists.{deny_all, permit_all, create_acl, edit, init_acl_settings}

-- The settings before initACLSettings, all NULL; the first allocation is n.
abbrev pub no_settings : ℕ → LoginSettings
no_settings n = record {
  root_acl = [];
  client_update_acl = none;
  client_rib_acl = none;
  cli_acl = none;
  mrt_acl = none;
  next_pointer = n;
}

-- "permitall" for the command line and clients, "denyall" for the rest.
abbrev pub verdict : AclType → AccessRule
verdict client_update = permit
verdict client_rib = permit
verdict cli = permit
verdict mrt = deny
verdict unknown = deny

abbrev pub initial : ℕ → LoginSettings
initial n = record {
  root_acl =
      record { pointer = n; name = deny_all; rules = create_acl_rule_any 0 deny ∷ [] }
      ∷ record { pointer = suc n; name = permit_all; rules = create_acl_rule_any 0 permit ∷ [] }
      ∷ [];
  client_update_acl = some (suc n);
  client_rib_acl = some (suc n);
  cli_acl = some (suc n);
  mrt_acl = some n;
  next_pointer = suc (suc n);
}

pub init_acl_settings-initial :
    (resolver : Resolver) (n : ℕ) → init_acl_settings resolver (no_settings n) ≡ ok (initial n)
unfolding init_acl_settings create_acl edit add_acl_rule remove_acl_rule locate insert_rule
    make_rule find_index reindex_acl reindex_from create_acl_rule_any
init_acl_settings-initial resolver n = ground arith

-- After initACLSettings on settings that are all NULL, the command line and clients are open to
-- every address, and MRT connections and unknown types of access to none.
pub init_acl_settings_lem :
    (resolver : Resolver) (n : ℕ) (sa : SockAddr) (type : AclType)
    → (s : LoginSettings) × (init_acl_settings resolver (no_settings n) ≡ ok s)
      × (check_acl s sa type ≡ ok (verdict type))
unfolding check_acl find_acl check_rules applies create_acl_rule_any
init_acl_settings_lem resolver n sa client_update =
    (initial n, init_acl_settings-initial resolver n, ground arith)
init_acl_settings_lem resolver n sa client_rib =
    (initial n, init_acl_settings-initial resolver n, ground arith)
init_acl_settings_lem resolver n sa cli =
    (initial n, init_acl_settings-initial resolver n, ground arith)
init_acl_settings_lem resolver n sa mrt =
    (initial n, init_acl_settings-initial resolver n, ground arith)
init_acl_settings_lem resolver n sa unknown =
    (initial n, init_acl_settings-initial resolver n, ground arith)
