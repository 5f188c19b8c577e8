-- ===== src/Labeling.antt =====
-- The RIB of a session and the labels of its prefixes (Labeling/).
pub mod Heap
pub mod Heaps
pub mod Hash
pub mod State
pub mod Table
pub mod Attributes
pub mod Prefixes
pub mod Stream
pub mod Nlri
pub mod Updates
pub mod Attrs
pub mod Parse
pub mod Process
pub mod View
pub mod Inv
pub mod Start
pub mod Encoded
pub mod Corrupt
pub mod Batch
pub mod Routes
pub mod Refine
pub mod Parts
pub mod Whole
pub mod Attributed
pub mod Messages
pub mod Parsed
mod Tests
pub mod Delivered
