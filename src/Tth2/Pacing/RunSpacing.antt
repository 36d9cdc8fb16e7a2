-- ===== src/Tth2/Pacing/RunSpacing.antt =====
-- Any sequence of calls of the scheduler: the grants of one run keep that run's own pace.
use tturl.Common.{
  ℕ, ◌+◌, ◌≤◌, ◌≡◌, refl, sym, ◌∙◌, inl, inr, Bool, true, Option, none, some, List, [], ◌∷◌, ◌++◌,
  get_elem?, length, arith, ◌==◌, if◌then◌else◌, Bool-cases, get_elem?-append_left, map-append,
  get_or-of_get, get_elem?-lt, get_elem?-set_self, get_elem?-set_ne, ==_iff, ==_refl,
}
use tturl.Tth2.Pacing.Clock.{
  Float64, PaceConfig, PaceState, request_interval, ready_at-started, active,
}
use tturl.Tth2.Pacing.{
  PaceScheduler, admission, new_run, enqueue, end_context, cancel, close_run, step, set_run, run_at,
  is_empty, set_admission,
}
use tturl.Tth2.Pacing.Steps.{clocks, clock_of, set_run-Keeps}
use tturl.Tth2.Pacing.Grants.{stamp, stamp_run, step-Effect}
use tturl.Tth2.Pacing.Spacing.{
  Op, opens, enqueues, ends, cancels, closes, steps, Grant, grants_of, apply_op, grant_log,
}

module _ {fp : Float64} where
  -- A grant moves the clock of its own run, if that run limits its starts at all.
  abbrev pub moved : ℕ → PaceState fp → Grant → PaceState fp
  moved r c g = if g.run == r then (if active fp c.config then stamp c g.time else c) else c

  -- Each grant of the run comes after both intervals since the run's grant before it.
  abbrev pub RunSpaced : ℕ → PaceState fp → List Grant → Type 0
  RunSpaced r c [] = Unit
  RunSpaced r c (g ∷ gs) =
      (g.run ≡ r
        → c.started ≡ true
        → (c.last + c.config.min_batch_interval ≤ g.time)
          × (c.last + request_interval fp g.width c.config.requests_per_second ≤ g.time))
      × RunSpaced r (moved r c g) gs

  abbrev HasClock : PaceScheduler fp → ℕ → PaceState fp → Type 0
  HasClock s r c = get_elem? (clocks s) r ≡ some c

  set_run-clock :
      (s : PaceScheduler fp) (r q : ℕ) (c : PaceState fp) (queue : List ℕ) (closed : Bool)
      → HasClock s r c
      → HasClock (set_run s q (record (run_at s q) { queue = queue; closed = closed })) r c
  set_run-clock s r q c queue closed h =
      rw ((set_run-Keeps s q (record (run_at s q) { queue = queue; closed = closed }) refl).runs) h

  close_run-clock :
      (s : PaceScheduler fp) (r q : ℕ) (c : PaceState fp)
      → HasClock s r c
      → HasClock (close_run s q) r c
  unfolding close_run
  close_run-clock s r q c h =
      let kept = set_run-clock s r q c (run_at s q).queue true h in
      elim (Bool-cases (is_empty (run_at s q).queue)) [ inl e ↦ rw e kept | inr e ↦ rw e kept ]

  new_run-clock :
      (s : PaceScheduler fp) (r : ℕ) (c : PaceState fp) (config : PaceConfig fp)
      → HasClock s r c
      → HasClock (new_run s config) r c
  unfolding new_run
  new_run-clock s r c config h =
      rw (map-append (λ x. x.state) s.all_runs _) (get_elem?-append_left (clocks s) _ r h)

  enqueue-clock :
      (s : PaceScheduler fp) (r q width : ℕ) (c : PaceState fp)
      → HasClock s r c
      → HasClock (enqueue s q width) r c
  unfolding enqueue
  enqueue-clock s r q width c h =
      let queue = (run_at s q).queue ++ length s.admissions ∷ [] in
      set_run-clock s r q c queue (run_at s q).closed h

  cancel-clock :
      (s : PaceScheduler fp) (r a : ℕ) (c : PaceState fp)
      → HasClock s r c
      → HasClock (cancel s a).0 r c
  unfolding cancel set_admission
  cancel-clock s r a c h = ground arith

  clock_of-eq :
      (s : PaceScheduler fp) (r : ℕ) (c : PaceState fp) → HasClock s r c → clock_of s r ≡ c
  clock_of-eq s r c h = get_or-of_get (clocks s) r s.origin h

  stamp_run-clock :
      (s : PaceScheduler fp) (now r a q : ℕ) (c : PaceState fp)
      → HasClock s r c
      → get_elem? (stamp_run s now q) r
        ≡ some (moved r c (record { time = now; width = (admission s a).width; run = q }))
  stamp_run-clock s now r a q c h = elim (Bool-cases (q == r)) [
    | inl same ↦
        let e : q ≡ r = (==_iff q r).0 same in
        let at = clock_of-eq s r c h in
        elim (Bool-cases (active fp c.config)) [
          | inl on ↦
              rw (same, on, e, at, on)
                (get_elem?-set_self (clocks s) r (stamp c now) (get_elem?-lt (clocks s) r h))
          | inr off ↦ rw (same, off, e, at, off) h
        ]
    | inr other ↦ elim (Bool-cases (active fp (clock_of s q).config)) [
      | inl on ↦
          rw (other, on) (get_elem?-set_ne (clocks s) q r _ (λ e. cc (e, other, ==_refl r)) ∙ h)
      | inr off ↦ rw (other, off) h
    ]
  ]

  granted-RunSpaced :
      (s : PaceScheduler fp) (r now : ℕ) (c : PaceState fp) (o : Option (ℕ × ℕ)) (gs : List Grant)
      → o ≡ (step s now).grant
      → HasClock s r c
      → ((d : PaceState fp) → HasClock (step s now).state r d → RunSpaced r d gs)
      → RunSpaced r c (grants_of s now o ++ gs)
  unfolding grants_of
  granted-RunSpaced s r now c none gs e h k = k c (rw ((step-Effect s now).idle_runs (sym e)) h)
  granted-RunSpaced s r now c (some (a, q)) gs e h k =
      let effect = step-Effect s now in
      (
        λ same on. ready_at-started fp c (admission s a).width now on (
            let at : clock_of s q ≡ c = rw same (clock_of-eq s r c h) in
            rw (← at) (effect.ready a q (sym e)).1),
        k _ (rw (effect.charged_run a q (sym e)) (stamp_run-clock s now r a q c h)),
      )

  apply_op-clock :
      (s : PaceScheduler fp) (op : Op fp) (r : ℕ) (c : PaceState fp) (gs : List Grant)
      → HasClock s r c
      → ((d : PaceState fp) → HasClock (apply_op s op).0 r d → RunSpaced r d gs)
      → RunSpaced r c ((apply_op s op).1 ++ gs)
  unfolding apply_op
  apply_op-clock s (opens config) r c gs h k = k c (new_run-clock s r c config h)
  apply_op-clock s (enqueues q width) r c gs h k = k c (enqueue-clock s r q width c h)
  apply_op-clock s (ends a) r c gs h k = k c (unfold end_context set_admission in h)
  apply_op-clock s (cancels a) r c gs h k = k c (cancel-clock s r a c h)
  apply_op-clock s (closes q) r c gs h k = k c (close_run-clock s r q c h)
  apply_op-clock s (steps now) r c gs h k =
      granted-RunSpaced s r now c (step s now).grant gs refl h k

  -- Whatever calls are made of the scheduler and in whatever order, each grant of a run comes at
  -- least that run's minimal interval after the run's grant before it, and at least the time that the
  -- width of its batch takes at the run's rate.
  pub grants-RunSpaced :
      (s : PaceScheduler fp) (r : ℕ) (c : PaceState fp) (ops : List (Op fp))
      → get_elem? (clocks s) r ≡ some c
      → RunSpaced r c (grant_log s ops)
  unfolding grant_log
  grants-RunSpaced s r c [] h = tt
  grants-RunSpaced s r c (op ∷ ops) h =
      apply_op-clock s op r c (grant_log (apply_op s op).0 ops) h
        (λ d k. grants-RunSpaced (apply_op s op).0 r d ops k)
