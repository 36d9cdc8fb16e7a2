-- ===== src/Tth2/Arrangement.antt =====
-- tth2/arrangement.go: which request is flushed at which stream position of a trial, and how the
-- results are keyed back to the requests. A slice of the source is a list, an index out of range is
-- the source's panic and is `none` here. The random source is the list of its draws: `Shuffle` is
-- the Fisher-Yates loop of the standard library, and a draw is reduced below the bound asked for.
pub mod Orders
pub mod Balance
pub mod Scatter
pub mod Keying
mod Examples
use tturl.Common.{
  ℕ, zero, suc, ◌+◌, ◌*◌, ◌%◌, ◌≤◌, ◌≡◌, Bool, true, false, Option, none, some, List, [], ◌∷◌, map,
  length, get_elem?, get_or, set, upto, ltb, if◌then◌else◌, ◌>>=◌, SameItems,
}

pub data ArrangementPolicy : Type 0 where
  arrange_rotate arrange_none arrange_random : ArrangementPolicy

unfoldable pub balances_exactly : ArrangementPolicy → Bool
balances_exactly arrange_rotate = true
balances_exactly _ = false

unfoldable pub unit : ArrangementPolicy → ℕ → ℕ
unfolding balances_exactly
unit p n = if balances_exactly p then n else 1

unfoldable pub identity : ℕ → List ℕ
identity n = upto 0 n

pub record Arranger : Type 0 where
  pub policy : ArrangementPolicy
  pub n : ℕ
  pub base : List ℕ

unfoldable pub new_arranger : ArrangementPolicy → ℕ → Arranger
unfolding identity
new_arranger arrange_rotate n = record { policy = arrange_rotate; n = n; base = identity n }
new_arranger p n = record { policy = p; n = n; base = [] }

-- The swap that the source hands to `Shuffle`.
unfoldable pub swap : List ℕ → ℕ → ℕ → List ℕ
swap xs i j = set (set xs i (get_or xs j 0)) j (get_or xs i 0)

-- `for i := n - 1; i > 0; i--`, with `suc i` rounds left to make; a missing draw reads as 0.
unfoldable pub shuffle : ℕ → List ℕ → List ℕ → List ℕ
unfolding swap
shuffle zero draws xs = xs
shuffle (suc zero) draws xs = xs
shuffle (suc (suc i)) draws xs =
    shuffle (suc i) (elim draws [ [] ↦ [] | d ∷ ds ↦ ds ])
      (swap xs (suc i) (get_or draws 0 0 % (suc i + 1)))

unfoldable pub start_cycle : Arranger → List ℕ → Arranger
unfolding shuffle
start_cycle a draws = elim a.policy [
  | arrange_rotate ↦ record a { base = shuffle a.n draws a.base }
  | _ ↦ a
]

-- `a.buf[p] = a.base[(p+shift)%a.n]` for every position of the buffer.
unfoldable pub rotation : List ℕ → ℕ → ℕ → List ℕ
rotation base n shift = map (λ p. get_or base ((p + shift) % n) 0) (upto 0 n)

unfoldable pub next : Arranger → ℕ → List ℕ → List ℕ
unfolding rotation identity shuffle
next a shift draws = elim a.policy [
  | arrange_none ↦ identity a.n
  | arrange_random ↦ shuffle a.n draws (identity a.n)
  | arrange_rotate ↦ rotation a.base a.n shift
]

-- An arrangement of `n` requests: a permutation of `[0, n)`.
abbrev pub IsArrangement : ℕ → List ℕ → Type 0
IsArrangement n arrangement = SameItems arrangement (upto 0 n) × (length arrangement ≡ n)

module _ {ℓ} {A : Type ℓ} where
  -- `out[position] = reqs[i]`
  unfoldable pub arrange : List A → List ℕ → Option (List A)
  arrange reqs [] = some []
  arrange reqs (i ∷ is) = do r ← get_elem? reqs i; rest ← arrange reqs is; some (r ∷ rest)

  -- `out[i] = results[position]` over the positions from `p` on; a slot of `out` that is not
  -- written yet is the zero value of the source.
  unfoldable pub scatter_from : ℕ → List A → List ℕ → List A → Option (List A)
  scatter_from p results [] out = some out
  scatter_from p results (i ∷ is) out = do
    r ← get_elem? results p
    slot ← get_elem? out i
    scatter_from (suc p) results is (set out i r)

  unfoldable pub scatter : A → List A → List ℕ → Option (List A)
  unfolding scatter_from
  scatter zero_value results arrangement =
      scatter_from 0 results arrangement (map (λ _. zero_value) arrangement)
