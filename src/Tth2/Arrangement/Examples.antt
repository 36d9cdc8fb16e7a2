-- ===== src/Tth2/Arrangement/Examples.antt =====
-- The theorems on arrangements (tth2/arrangement.go) at three requests.
use tturl.Common.{ℕ, ◌≡◌, refl, some, none, ◌+◌, ◌*◌, List, [], ◌∷◌, get_elem?, count, arith}
use tturl.Common.Int.{pos}
use tturl.Tth2.Arrangement.{
  Arranger, arrange_rotate, new_arranger, start_cycle, next, arrange, scatter, shuffle,
  IsArrangement, identity,
}
use tturl.Tth2.Arrangement.Orders.{
  IsReady, new_arranger-IsReady, start_cycle-IsReady, identity-IsArrangement, shuffle-IsArrangement,
}
use tturl.Tth2.Arrangement.Balance.{rotation_balances, visits}
use tturl.Tth2.Arrangement.Scatter.{scatter-arrange}
use tturl.Tth2.Arrangement.Keying.{scatter_batch, scatter_batch-keeps_order}
use tturl.Tth2.Result.{Result, BatchResult, full_arrival_order}

-- `Shuffle` of three requests draws below 3 and then below 2.
abbrev draws : List ℕ
draws = 0 ∷ 1 ∷ []

abbrev cycle : Arranger
cycle = start_cycle (new_arranger arrange_rotate 3) draws

cycle-IsReady : IsReady cycle
cycle-IsReady =
    start_cycle-IsReady (new_arranger arrange_rotate 3) draws
      (new_arranger-IsReady arrange_rotate 3)

first_trial : next cycle 0 [] ≡ 2 ∷ 1 ∷ 0 ∷ []
unfolding next start_cycle new_arranger
first_trial = refl

second_trial : next cycle 1 [] ≡ 1 ∷ 0 ∷ 2 ∷ []
unfolding next start_cycle new_arranger
second_trial = refl

cycle_size : cycle.n ≡ 3
unfolding start_cycle new_arranger
cycle_size = refl

cycle_rotates : cycle.policy ≡ arrange_rotate
unfolding start_cycle new_arranger
cycle_rotates = refl

rotation_balances_example : count 2 (visits cycle ([] ∷ [] ∷ [] ∷ []) 1) ≡ 1
rotation_balances_example =
    rotation_balances cycle ([] ∷ [] ∷ [] ∷ []) 1 2 cycle_rotates cycle-IsReady
      (rw cycle_size (omega arith)) (rw cycle_size (omega arith))

abbrev reversed : List ℕ
reversed = 2 ∷ 0 ∷ 1 ∷ []

identity_three : IsArrangement 3 (0 ∷ 1 ∷ 2 ∷ [])
unfolding identity
identity_three = identity-IsArrangement 3

reversed-IsArrangement : IsArrangement 3 reversed
unfolding shuffle
reversed-IsArrangement = shuffle-IsArrangement 3 (1 ∷ 0 ∷ []) (0 ∷ 1 ∷ 2 ∷ []) (identity_three)

scatter-arrange_example :
    (laid : List ℕ) × (arrange (70 ∷ 80 ∷ 90 ∷ []) reversed ≡ some laid)
    × (scatter 0 laid reversed ≡ some (70 ∷ 80 ∷ 90 ∷ []))
scatter-arrange_example =
    scatter-arrange 3 0 (70 ∷ 80 ∷ 90 ∷ []) reversed reversed-IsArrangement refl

abbrev ranked_at : ℕ → Result ℕ
ranked_at rank = record {
  response = some 200;
  arrival_rank = pos rank;
  reset = none;
  arrival_seq = pos (rank + 10);
  stream_id = 2 * rank + 1;
}

abbrev by_position : BatchResult ℕ
by_position = record {
  connection = 7;
  results = ranked_at 1 ∷ ranked_at 0 ∷ ranked_at 2 ∷ [];
  arrival_order = 1 ∷ 0 ∷ 2 ∷ [];
}

by_position_full : full_arrival_order by_position ≡ some (1 ∷ 0 ∷ 2 ∷ [])
unfolding full_arrival_order
by_position_full = refl

scatter_batch-keeps_order_example :
    (b' : BatchResult ℕ) × (order' : List ℕ) × (scatter_batch by_position reversed ≡ some b')
    × (full_arrival_order b' ≡ some order')
    × ((q p : ℕ)
        → get_elem? (1 ∷ 0 ∷ 2 ∷ []) q ≡ some p
        → get_elem? order' q ≡ get_elem? reversed p)
    × ((p i : ℕ)
        → get_elem? reversed p ≡ some i
        → get_elem? b'.results i ≡ get_elem? by_position.results p)
scatter_batch-keeps_order_example =
    scatter_batch-keeps_order 3 by_position (1 ∷ 0 ∷ 2 ∷ []) reversed by_position_full refl
      reversed-IsArrangement
