-- ===== src/Timing.antt =====
-- The timing campaigns (internal/timing): what their workers share.
pub mod Schedule
