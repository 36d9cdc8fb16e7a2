-- ===== src/Tth2/Pool/Bound.antt =====
-- The connections that a pool (tth2/transport.go) keeps, whatever the interleaving of its calls.
use tturl.Common.{ℕ, ◌+◌, ◌≤◌, ◌≡◌, none, some, List, [], ◌∷◌, length}
use tturl.Tth2.Pool.{
  Phase, outside, admitted, evicting, dialling, in_use, returned, closing, System,
}

-- A call holds a token.
abbrev pub holds : Phase → ℕ
holds outside = 0
holds _ = 1

-- A call has or is about to open a connection.
abbrev pub uses : Phase → ℕ
uses outside = 0
uses admitted = 0
uses (evicting none epoch) = 0
uses (evicting (some conn) epoch) = 1
uses (dialling epoch) = 1
uses (in_use conn epoch) = 1
uses returned = 0
uses (closing conn) = 1

-- A call holds a token that is as good as free.
abbrev spares : Phase → ℕ
spares admitted = 1
spares returned = 1
spares _ = 0

abbrev pub total : (Phase → ℕ) → List Phase → ℕ
total f [] = 0
total f (p ∷ calls) = f p + total f calls

record Balanced (limit : ℕ) (s : System) : Type 0 where
  tokens : s.pool.tokens + total holds s.calls ≡ limit
  idle : length s.pool.idle ≤ s.pool.tokens + total spares s.calls
