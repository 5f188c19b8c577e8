-- ===== src/Acl/State.antt =====
-- The structures of Util/acl.h, Util/aclmanagement.h and Login/login.h that access control uses.
-- A linked list is a list; a pointer to an access control list is the number of its allocation.
use Prim.Native.String.{String}
use bgpmon.Base.{ℕ, Bool, List, Option}
use bgpmon.Address.{SockAddr}

pub data AccessRule : Type 0 where
  deny permit label ribonly : AccessRule

pub record AclRule : Type 0 where
  pub index : ℕ
  pub allow_any_address : Bool
  pub address : Option SockAddr
  pub address_string : String
  pub mask : Option SockAddr
  pub mask_string : String
  pub access : AccessRule

-- The name is the bytes in a buffer of ACL_NAME_MAX_LEN; a NUL follows if they leave room for it.
pub record AccessControlList : Type 0 where
  pub pointer : ℕ
  pub name : List ℕ
  pub rules : List AclRule

-- The part of LoginSettings that is about access control, and the next allocation.
pub record LoginSettings : Type 0 where
  pub root_acl : List AccessControlList
  pub client_update_acl : Option ℕ
  pub client_rib_acl : Option ℕ
  pub cli_acl : Option ℕ
  pub mrt_acl : Option ℕ
  pub next_pointer : ℕ

pub data AclType : Type 0 where
  client_update client_rib cli mrt unknown : AclType
