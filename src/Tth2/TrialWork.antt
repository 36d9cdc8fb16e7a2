-- ===== src/Tth2/TrialWork.antt =====
-- tth2/trialstream.go: how the workers of a trial stream share its trials. A worker draws blocks from
-- an atomic counter and sends the trials of a block in order. The order of the workers' moves is a
-- list, so it stands for any interleaving; a worker may also stop at any move, as `stopping`, an ended
-- context or a terminal error make it do.
pub mod Sharing
pub mod Once
pub mod Cycles
mod Examples
use tturl.Common.{
  ℕ, zero, suc, ◌+◌, ◌-◌, ◌*◌, ◌/◌, ◌%◌, min, Bool, true, false, ◌||◌, ◌&&◌, Option, none, some,
  List, [], ◌∷◌, replicate, get_elem?, set, ltb, leb, ◌==◌, if◌then◌else◌,
}
use tturl.Tth2.Arrangement.{ArrangementPolicy, balances_exactly}

-- A limit of 0 is none. A limit is at least 1 where it is set.
unfoldable pub block_available : ℕ → ℕ → ℕ → Bool
block_available max_trials unit idx = (max_trials == 0) || leb idx ((max_trials - 1) / unit)

unfoldable pub trial_available : ℕ → ℕ → Bool
trial_available max_trials index = (max_trials == 0) || ltb index max_trials

-- The end of `StreamTrials`: how many workers a run has.
unfoldable pub stream_conns : ℕ → ℕ → ℕ → ℕ → ℕ
stream_conns pool_conns max_conns max_trials unit =
    let conns = (if ltb 0 max_conns then min pool_conns max_conns else pool_conns) in
    if ltb 0 max_trials then min conns ((max_trials - 1) / unit + 1) else conns

pub data TrialsError : Type 0 where
  no_requests no_trials uneven_cycles : TrialsError

-- What `RunTrials` refuses before it sends anything.
unfoldable pub check_run_trials : ArrangementPolicy → ℕ → ℕ → Option TrialsError
unfolding balances_exactly
check_run_trials policy n trials =
    if n == 0
    then some no_requests
    else if trials == 0
    then some no_trials
    else if balances_exactly policy && (if trials % n == 0 then false else true)
    then some uneven_cycles
    else none

-- Where a worker stands: before a draw, in a block at a shift, done, or stopped early.
pub data Worker : Type 0 where
  between finished quit : Worker
  in_block stopped : (block shift : ℕ) → Worker

pub record TrialRun : Type 0 where
  pub next_block : ℕ
  pub workers : List Worker
  pub sent : List ℕ  -- the indices of the trials, the last one first

pub data Move : Type 0 where
  works stops : (worker : ℕ) → Move

abbrev pub put_worker : TrialRun → ℕ → Worker → TrialRun
put_worker r k w = record r { workers = set r.workers k w }

-- `draw`, and the test of the outer loop.
unfoldable pub draw_block : ℕ → ℕ → TrialRun → ℕ → TrialRun
unfolding block_available
draw_block max_trials unit r k =
    let idx = r.next_block in
    let w = (if block_available max_trials unit idx then in_block idx 0 else finished) in
    record (put_worker r k w) { next_block = suc idx }

-- One turn of the inner loop, or its end.
unfoldable pub send_next : ℕ → ℕ → TrialRun → ℕ → ℕ → ℕ → TrialRun
unfolding trial_available
send_next max_trials unit r k block shift =
    let index = block * unit + shift in
    if leb unit shift
    then put_worker r k between
    else if trial_available max_trials index
    then record (put_worker r k (in_block block (suc shift))) { sent = index ∷ r.sent }
    else put_worker r k finished

unfoldable pub work_from : ℕ → ℕ → TrialRun → ℕ → Worker → TrialRun
unfolding draw_block send_next
work_from max_trials unit r k between = draw_block max_trials unit r k
work_from max_trials unit r k (in_block block shift) = send_next max_trials unit r k block shift
work_from max_trials unit r k _ = r

unfoldable pub stop_from : TrialRun → ℕ → Worker → TrialRun
stop_from r k between = put_worker r k quit
stop_from r k (in_block block shift) = put_worker r k (stopped block shift)
stop_from r k _ = r

-- A move of a worker that does not exist changes nothing.
abbrev pub at_worker : TrialRun → (Worker → TrialRun) → Option Worker → TrialRun
at_worker r move none = r
at_worker r move (some w) = move w

unfoldable pub run_move : ℕ → ℕ → TrialRun → Move → TrialRun
unfolding work_from stop_from
run_move max_trials unit r (works k) =
    at_worker r (work_from max_trials unit r k) (get_elem? r.workers k)
run_move max_trials unit r (stops k) = at_worker r (stop_from r k) (get_elem? r.workers k)

unfoldable pub run_moves : ℕ → ℕ → TrialRun → List Move → TrialRun
unfolding run_move
run_moves max_trials unit r [] = r
run_moves max_trials unit r (m ∷ ms) = run_moves max_trials unit (run_move max_trials unit r m) ms

unfoldable pub start_run : ℕ → TrialRun
start_run conns = record { next_block = 0; workers = replicate conns between; sent = [] }
