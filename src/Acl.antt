-- ===== src/Acl.antt =====
-- Access control lists (Util/acl.c, Util/aclmanagement.h).
pub mod State
pub mod Match
pub mod Edit
pub mod Lists
pub mod FirstMatch
pub mod Range
pub mod Numbering
pub mod Initial
pub mod Dangling
pub mod Names
mod Tests
