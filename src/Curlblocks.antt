-- ===== src/Curlblocks.antt =====
-- The grammar of request blocks on the command line (internal/curlblocks).
pub mod Segments
pub mod Fan
pub mod Ranges
