-- ===== src/Tth2/Pacing/Grants.antt =====
-- What one step of the scheduler does: whom it grants, when, and which clocks it moves.
use tturl.Common.{
  ℕ, ◌≤◌, ◌≡◌, refl, ap, ◌∙◌, inl, inr, true, false, Option, none, some, List, set, arith, ltb,
  if◌then◌else◌, Bool-cases, map-set,
}
use tturl.Tth2.Pacing.Clock.{Float64, PaceState, ready_at, active, later_time}
use tturl.Tth2.Pacing.{
  PaceScheduler, StepResult, admission, done, run_at, set_run, prune_cancelled, remove_selected,
  release, step_selected, step_unselected, step_chosen, select_if_none, step, charge, grant_to,
  set_admission,
}
use tturl.Tth2.Pacing.Steps.{
  clocks, clock_of, run_at-state, Keeps, Keeps-refl, Keeps-trans, prune_cancelled-Keeps,
  select_if_none-Keeps, remove_selected-Keeps,
}

later_time-le : (a b now : ℕ) → later_time a b ≤ now → (a ≤ now) × (b ≤ now)
unfolding later_time
later_time-le a b now h = ground arith

module _ {fp : Float64} where
  abbrev pub stamp : PaceState fp → ℕ → PaceState fp
  stamp c now = record c { last = now; started = true }

  -- The clock of the granted run, where that run limits its starts at all.
  abbrev pub stamp_run : PaceScheduler fp → ℕ → ℕ → List (PaceState fp)
  stamp_run s now r =
      if active fp (clock_of s r).config
      then set (clocks s) r (stamp (clock_of s r) now)
      else clocks s

  -- What a step does. A grant takes the clock's reading as the last release of the origin and of the
  -- run granted, at a time when both clocks are ready for the batch, and goes to a call that still
  -- waits. Without a grant no clock moves.
  pub record StepEffect (s : PaceScheduler fp) (now : ℕ) (x : StepResult fp) : Type 0 where
    pub idle_origin : x.grant ≡ none → x.state.origin ≡ s.origin
    pub idle_runs : x.grant ≡ none → clocks x.state ≡ clocks s
    pub charged : (a r : ℕ) → x.grant ≡ some (a, r) → x.state.origin ≡ stamp s.origin now
    pub charged_run : (a r : ℕ) → x.grant ≡ some (a, r) → clocks x.state ≡ stamp_run s now r
    pub ready :
        (a r : ℕ)
        → x.grant ≡ some (a, r)
        → (ready_at fp s.origin (admission s a).width ≤ now)
          × (ready_at fp (clock_of s r) (admission s a).width ≤ now)
    pub waiting : (a r : ℕ) → x.grant ≡ some (a, r) → done s a ≡ false

  no_grant :
      (s : PaceScheduler fp) (now : ℕ) (x : StepResult fp)
      → x.grant ≡ none
      → Keeps s x.state
      → StepEffect s now x
  no_grant s now x e k = record {
    idle_origin = λ _. k.origin;
    idle_runs = λ _. k.runs;
    charged = λ a r h. cc;
    charged_run = λ a r h. cc;
    ready = λ a r h. absurd (ground arith);
    waiting = λ a r h. cc;
  }

  charge-origin : (s : PaceScheduler fp) (now r : ℕ) → (charge s now r).origin ≡ stamp s.origin now
  unfolding charge set_run
  charge-origin s now r = ground arith

  charge-runs : (s : PaceScheduler fp) (now r : ℕ) → clocks (charge s now r) ≡ stamp_run s now r
  unfolding charge set_run
  charge-runs s now r =
      let e = run_at-state s r in
      elim (Bool-cases (active fp (run_at s r).state.config)) [
        | inl limited ↦ rw (← e, limited, charge) (map-set (λ y. y.state) s.all_runs r _)
        | inr free ↦ rw (← e, free, charge) refl
      ]

  release_time : PaceScheduler fp → ℕ → ℕ → ℕ
  release_time s a r =
      later_time (ready_at fp s.origin (admission s a).width)
        (ready_at fp (run_at s r).state (admission s a).width)

  grant_to-origin : (s : PaceScheduler fp) (a r : ℕ) → (grant_to s a r).state.origin ≡ s.origin
  unfolding grant_to set_admission
  grant_to-origin s a r = refl

  grant_to-runs : (s : PaceScheduler fp) (a r : ℕ) → clocks (grant_to s a r).state ≡ clocks s
  unfolding grant_to set_admission
  grant_to-runs s a r = refl

  release-Effect :
      (s : PaceScheduler fp) (now a r : ℕ)
      → done s a ≡ false
      → release_time s a r ≤ now
      → StepEffect s now (release s now a r)
  unfolding release release_time grant_to
  release-Effect s now a r waits due =
      let freed = remove_selected (charge s now r) a r in
      let kept = remove_selected-Keeps (charge s now r) a r in
      let times = later_time-le _ _ now due in
      record {
        idle_origin = λ e. cc e;
        idle_runs = λ e. cc e;
        charged = λ b q e. grant_to-origin freed a r ∙ kept.origin ∙ charge-origin s now r;
        charged_run = λ b q e.
            let same : r ≡ q = cc e in
            rw (← same) (grant_to-runs freed a r ∙ kept.runs ∙ charge-runs s now r);
        ready = λ b q e.
            let same : a ≡ b = cc e in
            let same_run : r ≡ q = cc e in
            rw (← same, ← same_run) (times.0, rw (← run_at-state s r) times.1);
        waiting = λ b q e. let same : a ≡ b = cc e in rw (← same) waits;
      }

  step_selected-Effect :
      (s : PaceScheduler fp) (now a r : ℕ) → StepEffect s now (step_selected s now a r)
  unfolding step_selected release_time
  step_selected-Effect s now a r = elim (Bool-cases (done s a)) [
    | inl over ↦ rw over (no_grant s now _ refl (remove_selected-Keeps s a r))
    | inr waits ↦ elim (Bool-cases (ltb now (release_time s a r))) [
      | inl early ↦ rw (waits, early) (no_grant s now _ refl (Keeps-refl s))
      | inr due ↦ rw (waits, due) (release-Effect s now a r waits (ground (arith, due)))
    ]
  ]

  step_unselected-Effect :
      (s : PaceScheduler fp) (now earliest : ℕ) → StepEffect s now (step_unselected s now earliest)
  unfolding step_unselected
  step_unselected-Effect s now earliest =
      no_grant s now (step_unselected s now earliest) (ground arith)
        (record { origin = ground arith; runs = ground arith; admissions = ground arith })

  step_chosen-Effect :
      (s : PaceScheduler fp) (now earliest : ℕ) (o : Option (ℕ × ℕ))
      → StepEffect s now (step_chosen s now earliest o)
  step_chosen-Effect s now earliest none = step_unselected-Effect s now earliest
  step_chosen-Effect s now earliest (some (a, r)) = step_selected-Effect s now a r

  Keeps-Effect :
      {s t : PaceScheduler fp} {now : ℕ} {x : StepResult fp}
      → Keeps s t
      → StepEffect t now x
      → StepEffect s now x
  unfolding done admission
  Keeps-Effect {s} {t} {now} k e = record {
    idle_origin = λ h. e.idle_origin h ∙ k.origin;
    idle_runs = λ h. e.idle_runs h ∙ k.runs;
    charged = λ a r h. e.charged a r h ∙ ap {B = PaceState fp} (λ o. stamp o now) k.origin;
    charged_run = λ a r h. rw (← k.origin, ← k.runs) (e.charged_run a r h);
    ready = λ a r h. rw (← k.origin, ← k.runs, ← k.admissions) (e.ready a r h);
    waiting = λ a r h. rw (← k.admissions) (e.waiting a r h);
  }

  -- One `step` grants at most one batch. The call granted was neither cancelled nor ended, the origin's
  -- clock and its run's clock were both ready for its width, and both take the time of the step as
  -- their last release, the run's if it limits its starts. Without a grant no clock moves.
  pub step-Effect : (s : PaceScheduler fp) (now : ℕ) → StepEffect s now (step s now)
  unfolding step
  step-Effect s now =
      let pruned = prune_cancelled s in
      let chosen = select_if_none pruned now pruned.selected in
      Keeps-Effect
        (Keeps-trans (prune_cancelled-Keeps s) (select_if_none-Keeps pruned now pruned.selected))
        (step_chosen-Effect chosen.0 now chosen.1 chosen.0.selected)
