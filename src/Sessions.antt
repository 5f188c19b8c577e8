-- ===== src/Sessions.antt =====
-- The table of sessions (Peering/peersession.c).
pub mod Store
pub mod Find
pub mod Life
mod Tests
