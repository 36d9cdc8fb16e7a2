-- ===== src/Ranking/Sampler/Examples.antt =====
-- Runs of a solver's sampling at concrete inputs.
use tturl.Common.{ℕ, ◌≡◌, refl, Bool, true, false, some, List, [], ◌∷◌, ltb, ◌==◌, arith, ◌-◌, ◌≤◌}
use tturl.Common.Int.{pos, negsuc}
use tturl.Ranking.Comparator.{Profile, supply_of, up_to}
use tturl.Ranking.Sampler.{Sampling, baseline_supply, is_short, start_sampler}
use tturl.Ranking.Sampler.Placing.{IsPlan}
use tturl.Ranking.Sampler.Runs.{
  SamplerMove, compares, settles, run_sampler, IsRunning, run_sampler-IsRunning,
}

abbrev two_controls : Profile
two_controls = record {
  max_width = 3;
  controls = (0, record { bound = 2; unbounded = false }) ∷ [];
}

abbrev higher : ℕ → ℕ → Bool
higher a b = ltb b a

abbrev plain : List ℕ → Sampling ℕ
plain draws = record { evidence = λ c. c; scores = λ c. 10 - c; draws = draws }

-- Two comparisons, with candidate 1 ruled out in between.
abbrev three_moves : List (SamplerMove ℕ)
three_moves =
    compares (plain (1 ∷ 0 ∷ []))
    ∷ settles (λ c. c == 1) (0 ∷ 1 ∷ [])
    ∷ compares (plain (2 ∷ []))
    ∷ []

three_moves-runs :
    run_sampler higher 0 0 two_controls 1 three_moves
      (record { sampler = start_sampler 3 (2 ∷ 0 ∷ []); sent = [] })
    ≡ some (record {
      sampler = record {
        active = 0 ∷ 2 ∷ [];
        eliminated = 1 ∷ [];
        dropped = false ∷ true ∷ false ∷ [];
        coverage = [];
      };
      sent = (pos 2 ∷ pos 0 ∷ negsuc 0 ∷ []) ∷ (negsuc 0 ∷ pos 2 ∷ pos 0 ∷ []) ∷ [];
    })
unfolding run_sampler start_sampler
three_moves-runs = refl

plan : IsPlan two_controls 3 1
unfolding is_short baseline_supply supply_of up_to
plan = record { wide = omega arith; small = omega arith; filled = refl; reserved = omega arith }

run_sampler-IsRunning_example : IsRunning higher 0 0 two_controls 3 (
    run_sampler higher 0 0 two_controls 1 three_moves
      (record { sampler = start_sampler 3 (2 ∷ 0 ∷ []); sent = [] }))
run_sampler-IsRunning_example =
    run_sampler-IsRunning higher 0 0 two_controls 3 1 (2 ∷ 0 ∷ []) three_moves plan
      (omega arith, (omega arith, tt)) (tt, ((omega arith, (omega arith, tt)), (tt, tt)))

one_supplied : 1 ≤ up_to (baseline_supply two_controls) (pos 1)
unfolding baseline_supply supply_of up_to
one_supplied = omega arith
