-- ===== src/Tests.antt =====
-- The theorems at concrete inputs, and runs of the definitions.
pub mod Wire
pub mod Search
pub mod Files
pub mod Modes
pub mod PathRuns
pub mod Wildcards
pub mod Maps
pub mod Tables
pub mod Filters
pub mod Queues
pub mod Rings
