-- ===== src/Bgp.antt =====
-- BGP updates that are built from MRT records (Util/bgp.c).
pub mod Build
pub mod Attributes
pub mod Serial
pub mod Written
pub mod Encoding
pub mod Serialized
mod Tests
