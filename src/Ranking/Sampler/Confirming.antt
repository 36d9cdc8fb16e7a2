-- ===== src/Ranking/Sampler/Confirming.antt =====
-- The reserve of controls and the clean confirmation of a nominee
-- (internal/ranking/baselinereservedoutliersolver.go).
use tturl.Common.{
  ℕ, zero, suc, ◌+◌, ◌-◌, ◌/◌, ◌≤◌, ◌≡◌, refl, sym, ap, ◌∙◌, inl, inr, min, Bool, Option, none,
  some, List, [], ◌∷◌, append-nil, map, length, upto, arith, Bool-cases, length-map, length-upto,
  sum_by,
}
use tturl.Common.Int.{ℤ, pos}
use tturl.Ranking.Comparator.{Profile, max_int, control_kinds, up_to, validate_arrangement}
use tturl.Ranking.Comparator.Arrangements.{validate_arrangement_iff}
use tturl.Ranking.Sampler.{
  baseline_supply, sample_confirmation, reserve_from, outlier_control_reserve,
}
use tturl.Ranking.Sampler.Exchanges.{SameSums-length, position-Positioned}
use tturl.Ranking.Sampler.Assembling.{baseline_control, controls_from_lem, assembled}
use tturl.Ranking.Sampler.Placing.{up_to-bound, up_to-le}
use tturl.Ranking.Sampler.Accepting.{shuffled-IsComparable}

module _ {F : Type 0} (information : ℕ → F) (at_least : F → F → Bool) where
  reserve_from-bound :
      (more controls best : ℕ) (best_information : F)
      → best ≤ controls + more - 1
      → reserve_from information at_least more controls best best_information ≤ controls + more - 1
  unfolding reserve_from
  reserve_from-bound zero controls best best_information h = h
  reserve_from-bound (suc more) controls best best_information h =
      let better =
        reserve_from-bound more (suc controls) controls (information controls) (omega arith) in
      let worse = reserve_from-bound more (suc controls) best best_information (omega arith) in
      elim (Bool-cases (at_least (information controls) best_information)) [
        | inl e ↦ rw e (omega (arith, better))
        | inr e ↦ rw e (omega (arith, worse))
      ]

  -- The reserve is at most the controls that are available.
  pub outlier_control_reserve-bound :
      (zero_information : F) (width available : ℕ)
      → outlier_control_reserve information at_least zero_information width available ≤ available
  unfolding outlier_control_reserve
  outlier_control_reserve-bound zero_information width available =
      let bound =
        reserve_from-bound (min available (width - 1)) 1 0 zero_information (omega arith) in
      omega (arith, bound)

pub record Confirms (p : Profile) (r : Option (List ℤ)) : Type 0 where
  pub items : List ℤ
  pub returns : r ≡ some items
  pub accepted : validate_arrangement p items ≡ none

-- With a control of kind `Baseline`, a confirmation of any nominee is a comparison that
-- `validateArrangement` accepts, whatever the draws. The width is two or more.
pub sample_confirmation-Confirms :
    (p : Profile) (nominee : ℕ) (draws : List ℕ)
    → 2 ≤ p.max_width
    → p.max_width ≤ max_int / control_kinds
    → 1 ≤ up_to (baseline_supply p) (pos 1)
    → Confirms p (sample_confirmation p nominee draws)
unfolding sample_confirmation
sample_confirmation-Confirms p nominee draws wide small supplied =
    let want = p.max_width - 1 in
    let nc = up_to (baseline_supply p) (pos want) in
    let nc_bound : nc ≤ want = up_to-bound (baseline_supply p) want in
    let some_control = up_to-le (baseline_supply p) want supplied (omega arith) in
    let controls = map baseline_control (upto 0 nc) in
    let returns = controls_from_lem nc 0 (omega (arith, nc_bound, small)) in
    let before : List ℤ = pos nominee ∷ controls in
    let shape : before ≡ assembled 1 nc 0 (nominee ∷ []) [] =
      ap (λ k. pos nominee ∷ k) (sym (append-nil controls)) in
    let len : length controls ≡ nc = length-map baseline_control (upto 0 nc) ∙ length-upto 0 nc in
    let shuffled = position-Positioned (suc (length controls)) draws before (omega arith) in
    let size = SameSums-length shuffled.result before shuffled.same in
    let comparable =
      shuffled-IsComparable p want 1 0 (nominee ∷ []) [] shuffled.result (λ a. ground arith)
        (λ f. shuffled.same f ∙ ap (sum_by f) shape) (omega arith) (omega arith)
        (omega (arith, size, len, some_control)) (omega (arith, size, len, nc_bound, wide)) in
    record {
      items = shuffled.result;
      returns = rw (returns, shuffled.returns) refl;
      accepted = (validate_arrangement_iff p shuffled.result).1 comparable;
    }
