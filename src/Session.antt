-- ===== src/Session.antt =====
-- A BGP session with a monitored router: the finite state machine of Peering/bgpfsm.c and the
-- operations of Peering/peersession.c that it calls.
pub mod State
pub mod Timers
pub mod Capability
pub mod Wire
pub mod Fsm
pub mod Thread
pub mod Timing
pub mod Inv
pub mod Opening
pub mod Ending
pub mod Encoding
pub mod RoundTrip
pub mod Required
pub mod Starving
mod Tests
