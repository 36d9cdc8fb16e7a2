-- ===== src/Command.antt =====
-- The command line's measurement (cmd/tturl).
pub mod Workload
pub mod Quota
pub mod FixedWork
pub mod QuotaStore
