-- ===== src/Ranking.antt =====
-- The solvers' view of a comparison channel (internal/ranking).
pub mod Comparator
pub mod Sampler
