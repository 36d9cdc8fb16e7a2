-- ===== src/Tth2.antt =====
-- The library `tth2`: batches over one HTTP/2 connection, their order, pacing and pooling.
pub mod Arrangement
pub mod Result
pub mod Pacing
pub mod Flow
pub mod Streams
pub mod Body
pub mod Records
pub mod Scarce
pub mod Sending
pub mod Pool
pub mod Lease
pub mod Trials
pub mod TrialWork
pub mod TrialSend
