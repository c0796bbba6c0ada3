-- ===== src/Transfer.antt =====
-- One file, from the block list over the sender's tokens to the file that the receiver writes.
pub mod Sent
pub mod Rolls
pub mod Wanted
pub mod Search
pub mod Loop
pub mod File
pub mod Rebuild
pub mod ReadError
