-- ===== src/Curlblocks/Ranges/Reading.antt =====
-- A number of a range is read back from its text (internal/curlblocks/varysource.go).
use tturl.Common.{ℕ, zero, suc, ◌*◌}

-- The numbers that the fuel is enough for.
abbrev reach : ℕ → ℕ
reach zero = 2
reach (suc fuel) = 2 * reach fuel
