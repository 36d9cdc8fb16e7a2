-- ===== src/Tth2/Pacing/Spacing.antt =====
-- Any sequence of calls of the scheduler: two grants are never closer than the pace allows, for the
-- origin and for each run, and no cancelled call is granted.
use tturl.Common.{ℕ, ◌+◌, ◌≤◌, ◌≡◌, refl, sym, true, Option, none, some, List, [], ◌∷◌, ◌++◌, arith}
use tturl.Tth2.Pacing.Clock.{Float64, PaceConfig, PaceState, request_interval, ready_at-started}
use tturl.Tth2.Pacing.{
  PaceScheduler, admission, new_run, enqueue, end_context, cancel, close_run, step, set_run,
  set_admission,
}
use tturl.Tth2.Pacing.Grants.{stamp, step-Effect}

-- A critical section that some goroutine runs. `steps now` is a round of the scheduler's loop.
pub data Op (fp : Float64) : Type 0 where
  opens : PaceConfig fp → Op fp
  enqueues : (run width : ℕ) → Op fp
  ends : (a : ℕ) → Op fp
  cancels : (a : ℕ) → Op fp
  closes : (run : ℕ) → Op fp
  steps : (now : ℕ) → Op fp

pub record Grant : Type 0 where
  pub time : ℕ
  pub width : ℕ
  pub run : ℕ

module _ {fp : Float64} where
  -- What a step grants, with the width of the batch.
  unfoldable pub grants_of : PaceScheduler fp → ℕ → Option (ℕ × ℕ) → List Grant
  unfolding admission
  grants_of s now none = []
  grants_of s now (some (a, r)) = record { time = now; width = (admission s a).width; run = r } ∷ []

  unfoldable pub apply_op : PaceScheduler fp → Op fp → PaceScheduler fp × List Grant
  unfolding new_run enqueue end_context cancel close_run step grants_of
  apply_op s (opens config) = (new_run s config, [])
  apply_op s (enqueues r width) = (enqueue s r width, [])
  apply_op s (ends a) = (end_context s a, [])
  apply_op s (cancels a) = ((cancel s a).0, [])
  apply_op s (closes r) = (close_run s r, [])
  apply_op s (steps now) = ((step s now).state, grants_of s now (step s now).grant)

  -- The grants of a sequence of operations, in order.
  unfoldable pub grant_log : PaceScheduler fp → List (Op fp) → List Grant
  unfolding apply_op
  grant_log s [] = []
  grant_log s (op ∷ ops) = (apply_op s op).1 ++ grant_log (apply_op s op).0 ops

  -- From the state of a clock on, each grant comes after both intervals since the one before.
  abbrev pub Spaced : PaceState fp → List Grant → Type 0
  Spaced c [] = Unit
  Spaced c (g ∷ gs) =
      (c.started ≡ true
        → (c.last + c.config.min_batch_interval ≤ g.time)
          × (c.last + request_interval fp g.width c.config.requests_per_second ≤ g.time))
      × Spaced (stamp c g.time) gs

  cancel-origin : (s : PaceScheduler fp) (a : ℕ) → (cancel s a).0.origin ≡ s.origin
  unfolding cancel set_admission
  cancel-origin s a = ground arith

  close_run-origin : (s : PaceScheduler fp) (r : ℕ) → (close_run s r).origin ≡ s.origin
  unfolding close_run set_run
  close_run-origin s r = ground arith

  granted-Spaced :
      (s : PaceScheduler fp) (now : ℕ) (o : Option (ℕ × ℕ)) (gs : List Grant)
      → o ≡ (step s now).grant
      → Spaced (step s now).state.origin gs
      → Spaced s.origin (grants_of s now o ++ gs)
  unfolding grants_of
  granted-Spaced s now none gs e h = rw (← (step-Effect s now).idle_origin (sym e)) h
  granted-Spaced s now (some (a, r)) gs e h =
      let effect = step-Effect s now in
      let timed = (effect.ready a r (sym e)).0 in
      let after = effect.charged a r (sym e) in
      (λ on. ready_at-started fp s.origin (admission s a).width now on timed, rw (← after) h)

  -- Only a grant moves the origin's clock.
  apply_op-origin :
      (s : PaceScheduler fp) (op : Op fp) (gs : List Grant)
      → Spaced (apply_op s op).0.origin gs
      → Spaced s.origin ((apply_op s op).1 ++ gs)
  unfolding apply_op
  apply_op-origin s (opens config) gs h = unfold new_run in h
  apply_op-origin s (enqueues r width) gs h = unfold enqueue set_run in h
  apply_op-origin s (ends a) gs h = unfold end_context set_admission in h
  apply_op-origin s (cancels a) gs h = rw (← cancel-origin s a) h
  apply_op-origin s (closes r) gs h = rw (← close_run-origin s r) h
  apply_op-origin s (steps now) gs h = granted-Spaced s now (step s now).grant gs refl h

  -- Whatever calls are made of the scheduler and in whatever order, each grant comes at least the
  -- minimal interval of the origin after the grant before it, and at least the time that the width of
  -- its batch takes at the origin's rate.
  pub grants-Spaced :
      (s : PaceScheduler fp) (ops : List (Op fp)) → Spaced s.origin (grant_log s ops)
  unfolding grant_log
  grants-Spaced s [] = tt
  grants-Spaced s (op ∷ ops) =
      apply_op-origin s op (grant_log (apply_op s op).0 ops) (grants-Spaced (apply_op s op).0 ops)
