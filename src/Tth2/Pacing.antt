-- ===== src/Tth2/Pacing.antt =====
-- tth2/pacing.go: the scheduler that serialises the batch starts of one origin. A pointer to an
-- admission is its sequence number and a pointer to a run the run's number, both into the heaps of
-- the state; the map `s.runs` is the list `members`. Run 0 is `s.direct`. Times and durations are
-- nanoseconds, the zero `time.Time` is 0, and the clock's reading is an argument of each call.
-- Floating point is a parameter.
pub mod Clock
pub mod Steps
pub mod Grants
pub mod Spacing
pub mod RunSpacing
pub mod Selection
mod Examples
use tturl.Common.{
  ℕ, zero, suc, ◌+◌, ◌-◌, ◌≡◌, Bool, true, false, not, ◌&&◌, ◌||◌, Option, none, some, List, [],
  ◌∷◌, ◌++◌, length, get_or, set, ltb, leb, ◌==◌, if◌then◌else◌,
}
use tturl.Tth2.Pacing.Clock.{Float64, PaceConfig, PaceState, ready_at, active, later_time}

pub record PaceAdmission : Type 0 where
  pub width : ℕ
  pub granted : Bool  -- the channel is closed
  pub cancelled : Bool
  pub ctx_done : Bool  -- `ctx.Err() != nil`

abbrev pub no_admission : PaceAdmission
no_admission = record { width = 0; granted = false; cancelled = false; ctx_done = false }

abbrev pub remove_member : ℕ → List ℕ → List ℕ
remove_member r [] = []
remove_member r (m ∷ ms) = if m == r then ms else m ∷ remove_member r ms

abbrev pub is_empty {ℓ} : {A : Type ℓ} → List A → Bool
is_empty [] = true
is_empty (_ ∷ _) = false

abbrev pub selects : Option (ℕ × ℕ) → ℕ → Bool
selects none a = false
selects (some (b, r)) a = b == a

-- The inner loop of `pruneCancelled` over one queue.
unfoldable pub prune_queue : (ℕ → Bool) → Option (ℕ × ℕ) → List ℕ → Option (ℕ × ℕ) × List ℕ
prune_queue is_done selected [] = (selected, [])
prune_queue is_done selected (a ∷ queue) =
    let rest = prune_queue is_done (if selects selected a then none else selected) queue in
    if is_done a then rest else (selected, a ∷ queue)

abbrev pub earlier : ℕ → ℕ → ℕ
earlier earliest ready = if earliest == 0 || ltb ready earliest then ready else earliest

abbrev pub prefer : Option (ℕ × ℕ) → ℕ → ℕ → Option (ℕ × ℕ)
prefer none a r = some (a, r)
prefer (some (b, q)) a r = if ltb a b then some (a, r) else some (b, q)

abbrev pub pop_if : ℕ → List ℕ → List ℕ
pop_if a [] = []
pop_if a (b ∷ queue) = if b == a then queue else b ∷ queue

abbrev pub day : ℕ
day = 86_400_000_000_000

module _ (fp : Float64) where
  pub record PaceRun : Type 0 where
    pub state : PaceState fp
    pub queue : List ℕ
    pub closed : Bool

  pub record PaceScheduler : Type 0 where
    pub running : Bool
    pub origin : PaceState fp
    pub admissions : List PaceAdmission
    pub all_runs : List PaceRun
    pub members : List ℕ
    pub selected : Option (ℕ × ℕ)  -- the admission and its run

  pub record StepResult : Type 0 where
    pub state : PaceScheduler
    pub wait : ℕ
    pub idle : Bool
    pub grant : Option (ℕ × ℕ)  -- the admission granted, and its run

module _ {fp : Float64} where
  module _ (s : PaceScheduler fp) where
    unfoldable pub admission : ℕ → PaceAdmission
    admission a = get_or s.admissions a no_admission

    unfoldable pub run_at : ℕ → PaceRun fp
    run_at r = get_or s.all_runs r (record { state = s.origin; queue = []; closed = false })

    -- `a.cancelled || a.ctx.Err() != nil`
    unfoldable pub done : ℕ → Bool
    unfolding admission
    done a = (admission a).cancelled || (admission a).ctx_done

    unfoldable pub set_run : ℕ → PaceRun fp → PaceScheduler fp
    set_run r run = record s { all_runs = set s.all_runs r run }

    unfoldable pub set_admission : ℕ → PaceAdmission → PaceScheduler fp
    set_admission a x = record s { admissions = set s.admissions a x }

  -- `delete(s.runs, run)` for a private run that is closed and has nothing queued.
  unfoldable pub forget_if_finished : PaceScheduler fp → ℕ → PaceScheduler fp
  unfolding run_at
  forget_if_finished s r =
      if not (r == 0) && ((run_at s r).closed && is_empty (run_at s r).queue)
      then record s { members = remove_member r s.members }
      else s

  unfoldable pub new_scheduler : PaceConfig fp → PaceScheduler fp
  new_scheduler config =
      let idle_clock : PaceState fp = record { config = config; last = 0; started = false } in
      record {
        running = false;
        origin = idle_clock;
        admissions = [];
        all_runs = record { state = idle_clock; queue = []; closed = false } ∷ [];
        members = 0 ∷ [];
        selected = none;
      }

  unfoldable pub new_run : PaceScheduler fp → PaceConfig fp → PaceScheduler fp
  new_run s config = record s {
    all_runs =
        s.all_runs
        ++ record {
          state = record { config = config; last = 0; started = false };
          queue = [];
          closed = false;
        }
          ∷ [];
    members = s.members ++ length s.all_runs ∷ [];
  }

  -- The first critical section of `wait`: the admission is queued and the loop started.
  unfoldable pub enqueue : PaceScheduler fp → ℕ → ℕ → PaceScheduler fp
  unfolding run_at set_run
  enqueue s r width =
      let a = length s.admissions in
      let run = run_at s r in
      let queued = set_run s r (record run { queue = run.queue ++ a ∷ [] }) in
      record queued {
        admissions = s.admissions ++ record no_admission { width = width } ∷ [];
        running = true;
      }

  -- The context of a waiting call ends.
  unfoldable pub end_context : PaceScheduler fp → ℕ → PaceScheduler fp
  unfolding admission set_admission
  end_context s a = set_admission s a (record (admission s a) { ctx_done = true })

  -- The second critical section of `wait`, after `ctx.Done()`: true when the call was granted.
  unfoldable pub cancel : PaceScheduler fp → ℕ → PaceScheduler fp × Bool
  unfolding admission set_admission
  cancel s a =
      if (admission s a).granted
      then (s, true)
      else (set_admission s a (record (admission s a) { cancelled = true }), false)

  unfoldable pub close_run : PaceScheduler fp → ℕ → PaceScheduler fp
  unfolding run_at set_run
  close_run s r =
      let closing = set_run s r (record (run_at s r) { closed = true }) in
      if is_empty (run_at s r).queue
      then record closing { members = remove_member r s.members }
      else closing

  unfoldable pub prune_run : PaceScheduler fp → ℕ → PaceScheduler fp
  unfolding run_at done set_run prune_queue forget_if_finished
  prune_run s r =
      let (selected, queue) = prune_queue (done s) s.selected (run_at s r).queue in
      let pruned = set_run s r (record (run_at s r) { queue = queue }) in
      forget_if_finished (record pruned { selected = selected }) r

  unfoldable pub prune_runs : List ℕ → PaceScheduler fp → PaceScheduler fp
  unfolding prune_run
  prune_runs [] s = s
  prune_runs (r ∷ rs) s = prune_runs rs (prune_run s r)

  unfoldable pub prune_cancelled : PaceScheduler fp → PaceScheduler fp
  unfolding prune_runs
  prune_cancelled s = prune_runs s.members s

  unfoldable pub has_queued : PaceScheduler fp → List ℕ → Bool
  unfolding run_at
  has_queued s [] = false
  has_queued s (r ∷ rs) = not (is_empty (run_at s r).queue) || has_queued s rs

  -- One round of the loop of `selectAdmission`, over the selection and the earliest time so far.
  unfoldable pub consider : PaceScheduler fp → ℕ → ℕ → Option (ℕ × ℕ) × ℕ → Option (ℕ × ℕ) × ℕ
  unfolding run_at admission ready_at
  consider s now r (selected, earliest) = elim (run_at s r).queue [
    | [] ↦ (selected, earliest)
    | a ∷ _ ↦
        let ready = ready_at fp (run_at s r).state (admission s a).width in
        if ltb now ready
        then (selected, earlier earliest ready)
        else (prefer selected a r, earliest)
  ]

  unfoldable pub consider_all :
      PaceScheduler fp → ℕ → List ℕ → Option (ℕ × ℕ) × ℕ → Option (ℕ × ℕ) × ℕ
  unfolding consider
  consider_all s now [] acc = acc
  consider_all s now (r ∷ rs) acc = consider_all s now rs (consider s now r acc)

  unfoldable pub select_admission : PaceScheduler fp → ℕ → PaceScheduler fp × ℕ
  unfolding consider_all
  select_admission s now =
      let (selected, earliest) = consider_all s now s.members (s.selected, 0) in
      (record s { selected = selected }, earliest)

  -- `removeSelected` of admission `a`, selected from run `r`.
  unfoldable pub remove_selected : PaceScheduler fp → ℕ → ℕ → PaceScheduler fp
  unfolding run_at set_run forget_if_finished
  remove_selected s a r =
      let run = run_at s r in
      let popped = set_run s r (record run { queue = pop_if a run.queue }) in
      forget_if_finished (record popped { selected = none }) r

  -- The release of `step`: both clocks take the time of the release.
  unfoldable pub charge : PaceScheduler fp → ℕ → ℕ → PaceScheduler fp
  unfolding run_at set_run active
  charge s now r =
      let clocked = record s { origin = record (s.origin) { last = now; started = true } } in
      let run = run_at s r in
      if active fp run.state.config
      then set_run clocked r
          (record run { state = record (run.state) { last = now; started = true } })
      else clocked

  -- The channel of the granted call is closed, and the loop ends if nothing is left for it.
  unfoldable pub grant_to : PaceScheduler fp → ℕ → ℕ → StepResult fp
  unfolding set_admission admission has_queued
  grant_to s a r =
      let finished = (length s.members == 1) && not (has_queued s s.members) in
      let opened = set_admission s a (record (admission s a) { granted = true }) in
      record {
        state = record opened { running = if finished then false else s.running };
        wait = 0;
        idle = finished;
        grant = some (a, r);
      }

  unfoldable pub release : PaceScheduler fp → ℕ → ℕ → ℕ → StepResult fp
  unfolding charge remove_selected grant_to
  release s now a r = grant_to (remove_selected (charge s now r) a r) a r

  -- `step` once an admission is selected.
  unfoldable pub step_selected : PaceScheduler fp → ℕ → ℕ → ℕ → StepResult fp
  unfolding done remove_selected admission run_at ready_at release later_time
  step_selected s now a r =
      let ready =
        later_time (ready_at fp s.origin (admission s a).width)
          (ready_at fp (run_at s r).state (admission s a).width) in
      if done s a
      then record { state = remove_selected s a r; wait = 0; idle = false; grant = none }
      else if ltb now ready
      then record { state = s; wait = ready - now; idle = false; grant = none }
      else release s now a r

  -- `step` when nothing is selected, with the earliest time at which a private clock is ready.
  unfoldable pub step_unselected : PaceScheduler fp → ℕ → ℕ → StepResult fp
  step_unselected s now earliest =
      if not (earliest == 0)
      then record { state = s; wait = earliest - now; idle = false; grant = none }
      else if length s.members == 1
      then record { state = record s { running = false }; wait = 0; idle = true; grant = none }
      else record { state = s; wait = day; idle = false; grant = none }

  abbrev pub step_chosen : PaceScheduler fp → ℕ → ℕ → Option (ℕ × ℕ) → StepResult fp
  step_chosen s now earliest none = step_unselected s now earliest
  step_chosen s now earliest (some (a, r)) = step_selected s now a r

  abbrev pub select_if_none : PaceScheduler fp → ℕ → Option (ℕ × ℕ) → PaceScheduler fp × ℕ
  select_if_none s now none = select_admission s now
  select_if_none s now (some _) = (s, 0)

  unfoldable pub step : PaceScheduler fp → ℕ → StepResult fp
  unfolding prune_cancelled select_admission step_selected step_unselected
  step s now =
      let pruned = prune_cancelled s in
      let (chosen, earliest) = select_if_none pruned now pruned.selected in
      step_chosen chosen now earliest chosen.selected
