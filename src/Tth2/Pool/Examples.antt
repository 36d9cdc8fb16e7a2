-- ===== src/Tth2/Pool/Examples.antt =====
-- The theorems on a pool of connections (tth2/transport.go) at two calls and a limit of one.
use tturl.Common.{ℕ, [], ◌∷◌}
use tturl.Tth2.Pool.{OriginPool, System, outside, returned}

abbrev empty_pool : ℕ → OriginPool
empty_pool tokens = record { tokens = tokens; idle_timeout = 90; idle = []; epoch = 0 }

-- The first of two calls has dialled connection 5 and put it back, and its token is not yet free.
abbrev one_returned : System
one_returned = record {
  pool = record (empty_pool 0) { idle = record { conn = 5; since = 30 } ∷ [] };
  calls = returned ∷ outside ∷ [];
}

abbrev three_idle : OriginPool
three_idle = record (empty_pool 3) {
  idle =
      record { conn = 5; since = 10 }
      ∷ record { conn = 6; since = 60 }
      ∷ record { conn = 7; since = 70 }
      ∷ [];
}
