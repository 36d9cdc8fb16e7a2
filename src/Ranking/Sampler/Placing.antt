-- ===== src/Ranking/Sampler/Placing.antt =====
-- Every item of an assembled comparison is a candidate or a control that is supplied, and one of them
-- is a candidate (internal/ranking/baselinereservedoutliersolver.go).
use tturl.Common.{
  ℕ, zero, suc, ◌+◌, ◌-◌, ◌*◌, ◌/◌, ◌%◌, ◌≤◌, ◌<◌, ◌≡◌, refl, ◌∙◌, inl, inr, min, true, false, List,
  [], ◌∷◌, ◌++◌, map, length, take, upto, arith, All, if◌then◌else◌, Bool-cases, Option-cases,
  sum_by-append, All-map, length-map, length-append, length-take, length-upto, All-append,
}
use tturl.Common.Int.{ℤ, pos}
use tturl.Ranking.Comparator.{
  max_int, control_kinds, Profile, ControlSupply, is_candidate, is_supplied, supply_of, up_to,
  control_kind, control_index, control_word,
}
use tturl.Ranking.Comparator.Arrangements.{IsPlaceable}
use tturl.Ranking.Sampler.{baseline_supply, is_short}
use tturl.Ranking.Sampler.Exchanges.{SameSums}
use tturl.Ranking.Sampler.Sums.{sum_by-none, sum_by-zero, candidate_count}
use tturl.Ranking.Sampler.Assembling.{baseline_control, assembled}

-- What `serve` has checked when it samples: a width of two or more, enough candidates and controls to
-- fill it, and a reserve of controls that can be supplied.
pub record IsPlan (p : Profile) (m reserve : ℕ) : Type 0 where
  pub wide : 2 ≤ p.max_width
  pub small : p.max_width ≤ max_int / control_kinds
  pub filled : is_short p m ≡ false
  pub reserved : reserve ≤ up_to (baseline_supply p) (pos (p.max_width - 1))

pub up_to-bound : (s : ControlSupply) (want : ℕ) → up_to s (pos want) ≤ want
unfolding up_to
up_to-bound s want = ground arith

-- A supply of one control yields one of any positive number.
pub up_to-le :
    (s : ControlSupply) (want : ℕ) → 1 ≤ up_to s (pos 1) → 1 ≤ want → 1 ≤ up_to s (pos want)
unfolding up_to
up_to-le s want h k = ground (arith, h, k)

-- The supply of `Baseline` covers a control below what it can yield.
control-is_supplied :
    (p : Profile) (want i : ℕ)
    → i < up_to (baseline_supply p) (pos want)
    → is_supplied p.controls (baseline_control i) ≡ true
unfolding is_supplied baseline_supply up_to control_kind control_index control_word
control-is_supplied p want i lt =
    let kind : (i * 16 + 0) % 16 ≡ 0 = omega arith in
    let index : (i * 16 + 0) / 16 ≡ i = omega arith in
    elim (Option-cases (supply_of p.controls 0)) [
      | inl e ↦ absurd (let lt' = rw (baseline_supply, e) at lt in ground (arith, lt'))
      | inr (s, e) ↦
          let lt' = rw (baseline_supply, e) at lt in
          rw (is_supplied, kind, e, index) (ground (arith, lt'))
    ]

-- The positions a supply leaves over are no more than the eliminated candidates.
pub enough_eliminated :
    (p : Profile) (m reserve live gone : ℕ)
    → IsPlan p m reserve
    → live + gone ≡ m
    → let positions : ℕ = min live (p.max_width - reserve) in
      p.max_width - positions - up_to (baseline_supply p) (pos (p.max_width - positions)) ≤ gone
unfolding is_short up_to
enough_eliminated p m reserve live gone plan split =
    let filled = plan.filled in
    let reserved = plan.reserved in
    let wide = plan.wide in ground (arith, filled, reserved, wide, split)

candidates-IsPlaceable : (p : Profile) (xs : List ℕ) → All (IsPlaceable p.controls) (map pos xs)
unfolding is_candidate
candidates-IsPlaceable p [] = tt
candidates-IsPlaceable p (x ∷ xs) = (inl refl, candidates-IsPlaceable p xs)

controls-IsPlaceable :
    (p : Profile) (want j k : ℕ)
    → j + k ≤ up_to (baseline_supply p) (pos want)
    → All (IsPlaceable p.controls) (map baseline_control (upto j k))
controls-IsPlaceable p want j zero h = tt
controls-IsPlaceable p want j (suc k) h = (
  inr (control-is_supplied p want j (omega arith)),
  controls-IsPlaceable p want (suc j) k (omega arith),
)

pub assembled-IsPlaceable :
    (p : Profile) (want positions picks : ℕ) (active eliminated : List ℕ)
    → All
        (IsPlaceable p.controls)
        (assembled positions (up_to (baseline_supply p) (pos want)) picks active eliminated)
assembled-IsPlaceable p want positions picks active eliminated =
    let nc = up_to (baseline_supply p) (pos want) in
    let controls = map baseline_control (upto 0 nc) in
    let back = map pos (take picks eliminated) in
    All-append (IsPlaceable p.controls) (map pos (take positions active)) (controls ++ back)
      (candidates-IsPlaceable p (take positions active))
      (All-append (IsPlaceable p.controls) controls back
        (controls-IsPlaceable p want 0 nc (omega arith))
        (candidates-IsPlaceable p (take picks eliminated)))

pub length-assembled :
    (positions nc picks : ℕ) (active eliminated : List ℕ)
    → positions ≤ length active
    → picks ≤ length eliminated
    → length (assembled positions nc picks active eliminated) ≡ positions + (nc + picks)
length-assembled positions nc picks active eliminated h k =
    let front = take positions active in
    let back = take picks eliminated in
    let controls = map baseline_control (upto 0 nc) in
    omega (
      arith,
      length-append (map pos front) (controls ++ map pos back),
      length-append controls (map pos back),
      length-map pos front,
      length-map pos back,
      length-map baseline_control (upto 0 nc),
      length-upto 0 nc,
      length-take positions active,
      length-take picks eliminated,
    )

candidate_count-map : (xs : List ℕ) → candidate_count (map pos xs) ≡ length xs
unfolding is_candidate
candidate_count-map [] = refl
candidate_count-map (x ∷ xs) = omega (arith, candidate_count-map xs)

pub candidate_count-assembled :
    (positions nc picks : ℕ) (active eliminated : List ℕ)
    → positions ≤ length active
    → positions ≤ candidate_count (assembled positions nc picks active eliminated)
candidate_count-assembled positions nc picks active eliminated h =
    let front = map pos (take positions active) in
    let rest = map baseline_control (upto 0 nc) ++ map pos (take picks eliminated) in
    omega (
      arith,
      sum_by-append (λ y. if is_candidate y then 1 else 0) front rest,
      candidate_count-map (take positions active),
      length-take positions active,
    )

-- Whether an item is not placeable, as a number.
abbrev misplaced : Profile → ℤ → ℕ
misplaced p x = if is_candidate x then 0 else if is_supplied p.controls x then 0 else 1

misplaced-IsPlaceable : (p : Profile) (x : ℤ) → misplaced p x ≡ 0 → IsPlaceable p.controls x
misplaced-IsPlaceable p x h = elim (Bool-cases (is_candidate x)) [
  | inl e ↦ inl e
  | inr e ↦ elim (Bool-cases (is_supplied p.controls x)) [
    | inl s ↦ inr s
    | inr s ↦ absurd (ground (arith, e, s, h))
  ]
]

IsPlaceable-misplaced : (p : Profile) (x : ℤ) → IsPlaceable p.controls x → misplaced p x ≡ 0
IsPlaceable-misplaced p x (inl e) = ground (arith, e)
IsPlaceable-misplaced p x (inr e) = ground (arith, e)

-- Items in another order are placeable too.
pub IsPlaceable-again :
    (p : Profile) (xs ys : List ℤ)
    → SameSums xs ys
    → All (IsPlaceable p.controls) ys
    → All (IsPlaceable p.controls) xs
IsPlaceable-again p xs ys same h =
    let none_misplaced =
      sum_by-zero (misplaced p) ys (
        All-map (IsPlaceable p.controls) (λ x. misplaced p x ≡ 0) ys (IsPlaceable-misplaced p) h) in
    All-map (λ x. misplaced p x ≡ 0) (IsPlaceable p.controls) xs (misplaced-IsPlaceable p)
      (sum_by-none (misplaced p) xs (same (misplaced p) ∙ none_misplaced))
