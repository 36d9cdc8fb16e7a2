-- ===== src/Tth2/Scarce/Examples.antt =====
-- The planner for scarce credit on two bodies.
use tturl.Common.{◌≡◌, refl, arith, some, none, [], ◌∷◌, false}
use tturl.Common.Int.{pos}
use tturl.Tth2.Records.{Bodies}
use tturl.Tth2.Records.Planning.{AreBodies}
use tturl.Tth2.Scarce.{plan_scarce_credit_record}
use tturl.Tth2.Scarce.Plans.{IsScarceResult, plan_scarce_credit_record_lem}

-- The first stream has a cap that is too small to be useful.
abbrev uneven_bodies : Bodies
uneven_bodies = record {
  data_len = 3200 ∷ 6400 ∷ [];
  sent = 0 ∷ 0 ∷ [];
  caps = 20 ∷ 2000 ∷ [];
  carrying = 0 ∷ 1 ∷ [];
}

uneven_plan : plan_scarce_credit_record uneven_bodies (λ _. false) (pos 500) ≡ some (0 ∷ 200 ∷ [])
unfolding plan_scarce_credit_record
uneven_plan = refl

no_credit_plan : plan_scarce_credit_record uneven_bodies (λ _. false) (pos 0) ≡ none
unfolding plan_scarce_credit_record
no_credit_plan = refl

uneven_bodies-AreBodies : AreBodies uneven_bodies
uneven_bodies-AreBodies = record {
  same_length = refl;
  indices = (omega arith, omega arith, (omega arith, omega arith, tt));
}

plan_scarce_credit_record_lem_example :
    IsScarceResult uneven_bodies
      (pos 500)
      (plan_scarce_credit_record uneven_bodies (λ _. false) (pos 500))
plan_scarce_credit_record_lem_example =
    plan_scarce_credit_record_lem uneven_bodies (λ _. false) (pos 500) uneven_bodies-AreBodies
