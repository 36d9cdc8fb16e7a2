-- ===== src/Tth2/Pacing/Steps.antt =====
-- What each operation of the scheduler does to the clocks and to the admissions.
use tturl.Common.{
  ℕ, ◌≡◌, refl, sym, ◌∙◌, Option, none, some, List, [], ◌∷◌, map, get_or, arith, map-set_same,
  get_or-map,
}
use tturl.Tth2.Pacing.Clock.{Float64, PaceState}
use tturl.Tth2.Pacing.{
  PaceRun, PaceScheduler, run_at, set_run, forget_if_finished, prune_run, prune_runs,
  prune_cancelled, select_admission, remove_selected, select_if_none,
}

module _ {fp : Float64} where
  -- The clocks of the runs, by run.
  abbrev pub clocks : PaceScheduler fp → List (PaceState fp)
  clocks s = map (λ r. r.state) s.all_runs

  abbrev pub clock_of : PaceScheduler fp → ℕ → PaceState fp
  clock_of s r = get_or (clocks s) r s.origin

  pub run_at-state : (s : PaceScheduler fp) (r : ℕ) → (run_at s r).state ≡ clock_of s r
  unfolding run_at
  run_at-state s r = sym (get_or-map (λ x. x.state) s.all_runs r _)

  -- The clocks and the admissions are as they were.
  pub record Keeps (s t : PaceScheduler fp) : Type 0 where
    pub origin : t.origin ≡ s.origin
    pub runs : clocks t ≡ clocks s
    pub admissions : t.admissions ≡ s.admissions

  pub Keeps-refl : (s : PaceScheduler fp) → Keeps s s
  Keeps-refl s = record { origin = refl; runs = refl; admissions = refl }

  pub Keeps-trans : {s t u : PaceScheduler fp} → Keeps s t → Keeps t u → Keeps s u
  Keeps-trans h k = record {
    origin = k.origin ∙ h.origin;
    runs = k.runs ∙ h.runs;
    admissions = k.admissions ∙ h.admissions;
  }

  pub set_run-Keeps :
      (s : PaceScheduler fp) (r : ℕ) (x : PaceRun fp)
      → x.state ≡ (run_at s r).state
      → Keeps s (set_run s r x)
  unfolding set_run run_at
  set_run-Keeps s r x h = record {
    origin = refl;
    runs = map-set_same (λ y. y.state) s.all_runs r _ x h;
    admissions = refl;
  }

  forget-Keeps : (s : PaceScheduler fp) (r : ℕ) → Keeps s (forget_if_finished s r)
  unfolding forget_if_finished
  forget-Keeps s r = ground arith

  with_selected-Keeps :
      {s t : PaceScheduler fp} (o : Option (ℕ × ℕ))
      → Keeps s t
      → Keeps s (record t { selected = o })
  with_selected-Keeps o k = record { origin = k.origin; runs = k.runs; admissions = k.admissions }

  prune_run-Keeps : (s : PaceScheduler fp) (r : ℕ) → Keeps s (prune_run s r)
  unfolding prune_run
  prune_run-Keeps s r =
      Keeps-trans (with_selected-Keeps _ (set_run-Keeps s r _ refl)) (forget-Keeps _ r)

  prune_runs-Keeps : (rs : List ℕ) (s : PaceScheduler fp) → Keeps s (prune_runs rs s)
  unfolding prune_runs
  prune_runs-Keeps [] s = Keeps-refl s
  prune_runs-Keeps (r ∷ rs) s =
      Keeps-trans (prune_run-Keeps s r) (prune_runs-Keeps rs (prune_run s r))

  pub prune_cancelled-Keeps : (s : PaceScheduler fp) → Keeps s (prune_cancelled s)
  unfolding prune_cancelled
  prune_cancelled-Keeps s = prune_runs-Keeps s.members s

  pub select_if_none-Keeps :
      (s : PaceScheduler fp) (now : ℕ) (o : Option (ℕ × ℕ)) → Keeps s (select_if_none s now o).0
  unfolding select_admission
  select_if_none-Keeps s now none = record { origin = refl; runs = refl; admissions = refl }
  select_if_none-Keeps s now (some x) = Keeps-refl s

  pub remove_selected-Keeps : (s : PaceScheduler fp) (a r : ℕ) → Keeps s (remove_selected s a r)
  unfolding remove_selected
  remove_selected-Keeps s a r =
      Keeps-trans (with_selected-Keeps none (set_run-Keeps s r _ refl)) (forget-Keeps _ r)
