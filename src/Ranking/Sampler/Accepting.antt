-- ===== src/Ranking/Sampler/Accepting.antt =====
-- The comparator accepts what a solver assembles (internal/ranking/baselinereservedoutliersolver.go,
-- internal/ranking/comparator.go).
use tturl.Common.{
  ℕ, ◌+◌, ◌-◌, ◌≤◌, ◌≡◌, refl, min, Option, some, List, length, arith, if◌then◌else◌,
}
use tturl.Common.Int.{ℤ, pos, eqb_ℤ}
use tturl.Ranking.Comparator.{Profile, is_candidate, up_to}
use tturl.Ranking.Comparator.Arrangements.{IsComparable}
use tturl.Ranking.Sampler.{Sampler, Sampled, baseline_supply, assemble}
use tturl.Ranking.Sampler.Exchanges.{SameSums, SameSums-length, position-Positioned}
use tturl.Ranking.Sampler.Sums.{AreDistinct-of_count, any_candidate-of_count}
use tturl.Ranking.Sampler.Assembling.{
  controls_from_lem, pick_eliminated-Picks, assembled, IsSplit, item_count-assembled, IsOnce,
  IsSplit-IsOnce,
}
use tturl.Ranking.Sampler.Placing.{
  IsPlan, up_to-bound, enough_eliminated, assembled-IsPlaceable, length-assembled,
  candidate_count-assembled, IsPlaceable-again,
}

-- Assembled items, in any order, make a comparison.
pub shuffled-IsComparable :
    (p : Profile) (want positions picks : ℕ) (active eliminated : List ℕ) (items : List ℤ)
    → IsOnce active eliminated
    → SameSums items
        (assembled positions (up_to (baseline_supply p) (pos want)) picks active eliminated)
    → positions ≤ length active
    → 1 ≤ positions
    → 2 ≤ length items
    → length items ≤ p.max_width
    → IsComparable p items
shuffled-IsComparable p want positions picks active eliminated items once same placed some_placed
      wide narrow =
    let nc : ℕ = up_to (baseline_supply p) (pos want) in
    let before = assembled positions nc picks active eliminated in
    let distinct = AreDistinct-of_count items (λ x. omega (
      arith,
      same (λ y. if eqb_ℤ y x then 1 else 0),
      item_count-assembled positions nc picks active eliminated once x,
    )) in
    let placeable =
      IsPlaceable-again p items before same
        (assembled-IsPlaceable p want positions picks active eliminated) in
    let candidate = any_candidate-of_count items (
      omega (
        arith,
        same (λ y. if is_candidate y then 1 else 0),
        candidate_count-assembled positions nc picks active eliminated placed,
      )) in
    (wide, narrow, distinct, placeable, candidate)

pub record Accepted (p : Profile) (active eliminated coverage : List ℕ) (s : Sampler)
    (r : Option Sampled) : Type 0 where
  pub items : List ℤ
  pub order : List ℕ
  pub returns :
      r
      ≡ some (record {
        items = items;
        sampler = record s { active = active; eliminated = order; coverage = coverage };
      })
  pub same : SameSums order eliminated
  pub full : length items ≡ p.max_width
  pub comparable : IsComparable p items

-- What is assembled is a full comparison that the comparator accepts.
pub assemble-Accepted :
    (p : Profile) (m reserve : ℕ) (active eliminated coverage draws : List ℕ) (s : Sampler)
    → IsPlan p m reserve
    → IsSplit m active eliminated
    → length active + length eliminated ≡ m
    → 1 ≤ length active
    → Accepted p active eliminated coverage s (
        assemble p (min (length active) (p.max_width - reserve)) active eliminated coverage draws s)
unfolding assemble
assemble-Accepted p m reserve active eliminated coverage draws s plan split sized some_active =
    let live : ℕ = length active in
    let positions : ℕ = min live (p.max_width - reserve) in
    let want : ℕ = p.max_width - positions in
    let nc : ℕ = up_to (baseline_supply p) (pos want) in
    let picks : ℕ = want - nc in
    let reserved = plan.reserved in
    let wide = plan.wide in
    let small = plan.small in
    let bound = up_to-bound (baseline_supply p) (p.max_width - 1) in
    let nc_bound : nc ≤ want = up_to-bound (baseline_supply p) want in
    let enough : picks ≤ length eliminated =
      enough_eliminated p m reserve live (length eliminated) plan sized in
    let placed : positions ≤ live = omega arith in
    let controls = controls_from_lem nc 0 (omega (arith, nc_bound, small)) in
    let picked = pick_eliminated-Picks picks 0 eliminated draws (omega (arith, enough)) in
    let order : List ℕ = picked.result.order in
    let before = assembled positions nc picks active order in
    let split' : IsSplit m active order = λ f. omega (arith, split f, picked.same f) in
    let len =
      length-assembled positions nc picks active order placed
        (omega (arith, enough, SameSums-length order eliminated picked.same)) in
    let shuffled =
      position-Positioned p.max_width picked.result.draws before (omega (arith, len, nc_bound)) in
    let full : length shuffled.result ≡ p.max_width = omega (
      arith,
      SameSums-length shuffled.result before shuffled.same,
      len,
      nc_bound,
      reserved,
      bound,
      wide,
    ) in
    record {
      items = shuffled.result;
      order = order;
      returns = rw (controls, picked.returns, picked.items, shuffled.returns) refl;
      same = picked.same;
      full = full;
      comparable =
          shuffled-IsComparable p want positions picks active order shuffled.result
            (IsSplit-IsOnce m active order split') shuffled.same placed
            (omega (arith, reserved, bound, wide)) (omega (arith, full, wide))
            (omega (arith, full));
    }
