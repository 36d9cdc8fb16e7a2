-- ===== src/Ranking/Sampler.antt =====
-- internal/ranking/baselinereservedoutliersolver.go: how a solver chooses the items of its comparisons
-- and drops candidates. Evidence and scores are floating point and are parameters, as is the order
-- on them; the random source is the list of its draws, each reduced below the bound asked for. An
-- index out of range and a panic are `none`; a `nil` comparison is the empty list.
pub mod Exchanges
pub mod Choosing
pub mod Sums
pub mod Assembling
pub mod Placing
pub mod Accepting
pub mod Comparing
pub mod Ruling
pub mod Dropping
pub mod Eliminating
pub mod Runs
pub mod Confirming
mod Examples
use tturl.Common.{
  ℕ, zero, suc, ◌+◌, ◌-◌, ◌%◌, min, Bool, true, false, not, ◌&&◌, Option, none, some, List, [], ◌∷◌,
  ◌++◌, map, length, get_elem?, get_or, set, take, drop, upto, replicate, ltb, leb, ◌==◌,
  if◌then◌else◌, ◌>>=◌,
}
use tturl.Common.Int.{ℤ, pos, negsuc}
use tturl.Ranking.Comparator.{ControlSupply, Profile, supply_of, up_to, control}

-- `Baseline`, the first kind of control.
abbrev pub baseline : ℕ
baseline = 0

-- `prof.Controls[Baseline]`; a missing kind reads as no supply.
unfoldable pub baseline_supply : Profile → ControlSupply
unfolding supply_of
baseline_supply p = elim (supply_of p.controls baseline) [
  | none ↦ record { bound = 0; unbounded = false }
  | some s ↦ s
]

-- What `serve` refuses: too few candidates and controls for the width.
unfoldable pub is_short : Profile → ℕ → Bool
unfolding baseline_supply up_to
is_short p m =
    let need = p.max_width - m in
    if ltb 0 need then ltb (up_to (baseline_supply p) (pos need)) need else false

abbrev pub later_draws : List ℕ → List ℕ
later_draws [] = []
later_draws (d ∷ ds) = ds

module _ {ℓ} {A : Type ℓ} where
  abbrev pub exchanged : List A → ℕ → ℕ → Option A → Option A → Option (List A)
  exchanged xs i j (some x) (some y) = some (set (set xs i y) j x)
  exchanged xs i j _ _ = none

  -- `xs[i], xs[j] = xs[j], xs[i]`
  unfoldable pub exchange : List A → ℕ → ℕ → Option (List A)
  exchange xs i j = exchanged xs i j (get_elem? xs i) (get_elem? xs j)

  -- `for i := n - 1; i > 0; i--`, which puts the items at random positions.
  unfoldable pub position : ℕ → List ℕ → List A → Option (List A)
  unfolding exchange
  position zero draws xs = some xs
  position (suc zero) draws xs = some xs
  position (suc (suc i)) draws xs = exchange xs (suc i) (get_or draws 0 0 % (suc i + 1)) >>= λ xs'.
      position (suc i) (later_draws draws) xs'

-- The state of the sampling; `coverage` is what `coverageOrder` still holds from its cursor on, and
-- `dropped` the flags `elim`.
pub record Sampler : Type 0 where
  pub active : List ℕ
  pub eliminated : List ℕ
  pub dropped : List Bool
  pub coverage : List ℕ

unfoldable pub start_sampler : ℕ → List ℕ → Sampler
start_sampler m coverage = record {
  active = upto 0 m;
  eliminated = [];
  dropped = replicate m false;
  coverage = coverage;
}

-- `outlierControlReserve`, with `more` counts left to try from `controls` on.
module _ {F : Type 0} (information : ℕ → F) (at_least : F → F → Bool) where
  unfoldable pub reserve_from : ℕ → ℕ → ℕ → F → ℕ
  reserve_from zero controls best best_information = best
  reserve_from (suc more) controls best best_information =
      let better = reserve_from more (suc controls) controls (information controls) in
      let worse = reserve_from more (suc controls) best best_information in
      if at_least (information controls) best_information then better else worse

  unfoldable pub outlier_control_reserve : F → ℕ → ℕ → ℕ
  unfolding reserve_from
  outlier_control_reserve zero_information width available =
      reserve_from (min available (width - 1)) 1 0 zero_information

-- The place of a candidate among the active ones, from `i` on.
unfoldable pub find_from : ℕ → List ℕ → ℕ → Option ℕ
find_from candidate [] i = none
find_from candidate (c ∷ cs) i =
    let rest = find_from candidate cs (suc i) in if c == candidate then some i else rest

pub record Covered : Type 0 where
  pub order : List ℕ  -- the active candidates
  pub at : ℕ  -- how many of them cover a position
  pub rest : List ℕ  -- what is left of the order of coverage

-- One candidate of the order of coverage.
abbrev pub cover_one : List ℕ → ℕ → Bool → Option ℕ → Option (List ℕ × ℕ)
cover_one active covered true found = some (active, covered)
cover_one active covered false none = some (active, covered)
cover_one active covered false (some i) =
    exchange active covered i >>= λ active'. some (active', suc covered)

-- The loop that covers every candidate once.
unfoldable pub cover : ℕ → List Bool → List ℕ → List ℕ → ℕ → Option Covered
unfolding find_from exchange
cover positions dropped [] active covered =
    some (record { order = active; at = covered; rest = [] })
cover positions dropped (c ∷ cs) active covered =
    let turn =
      (get_elem? dropped c >>= λ out.
      cover_one active covered out (find_from c (drop covered active) covered) >>= λ r.
      cover positions dropped cs (r.0) (r.1)) in
    if ltb covered positions
    then turn
    else some (record { order = active; at = covered; rest = c ∷ cs })

pub record Leader (F : Type 0) : Type 0 where
  pub index : Option ℕ  -- -1 is `none`
  pub log_evidence : F

module _ {F : Type 0} (above : F → F → Bool) where
  -- The best score from `j` on, with `more` left to look at.
  unfoldable pub best_from : List F → ℕ → ℕ → ℕ → Option ℕ
  best_from buf zero j top = some top
  best_from buf (suc more) j top = get_elem? buf j >>= λ a.
      get_elem? buf top >>= λ b. best_from buf more (suc j) (if above a b then j else top)

  -- The loop of Thompson sampling, with `more` positions left to fill from `at` on.
  unfoldable pub fill_positions : ℕ → ℕ → List ℕ → List F → Option (List ℕ)
  unfolding best_from exchange
  fill_positions zero at active buf = some active
  fill_positions (suc more) at active buf =
      best_from buf (length active - suc at) (suc at) at >>= λ top.
      exchange active at top >>= λ active'.
      exchange buf at top >>= λ buf'. fill_positions more (suc at) active' buf'

  -- `leaderOf`, from the best so far.
  unfoldable pub leader_from : (ℕ → F) → List ℕ → Leader F → Leader F
  leader_from evidence [] l = l
  leader_from evidence (c ∷ cs) l = leader_from evidence cs (
      if above (evidence c) l.log_evidence
      then record { index = some c; log_evidence = evidence c }
      else l)

-- Where the leader stands; a leader of -1 is nowhere.
abbrev pub leader_pos : Option ℕ → List ℕ → Option ℕ
leader_pos none active = none
leader_pos (some c) active = find_from c active 0

-- `if leaderPos >= candidatePositions`
abbrev pub pin_at : ℕ → List ℕ → Option ℕ → Option (List ℕ)
pin_at positions active none = some active
pin_at positions active (some i) =
    if leb positions i then exchange active (positions - 1) i else some active

unfoldable pub pin : Bool → ℕ → ℕ → List ℕ → Option ℕ → Option (List ℕ)
unfolding find_from exchange
pin leads positions covered active leader =
    if leads && ltb positions (length active) && ltb covered positions
    then pin_at positions active (leader_pos leader active)
    else some active

-- The first `nc` controls, from `j` on.
unfoldable pub controls_from : ℕ → ℕ → Option (List ℤ)
unfolding control
controls_from zero j = some []
controls_from (suc nc) j =
    control baseline (pos j) >>= λ c. controls_from nc (suc j) >>= λ cs. some (c ∷ cs)

pub record Picked : Type 0 where
  pub items : List ℤ
  pub order : List ℕ  -- the eliminated candidates
  pub draws : List ℕ

-- `more` eliminated candidates, from `k` on; `IntN` panics on an empty range.
unfoldable pub pick_eliminated : ℕ → ℕ → List ℕ → List ℕ → Option Picked
unfolding exchange
pick_eliminated zero k eliminated draws =
    some (record { items = []; order = eliminated; draws = draws })
pick_eliminated (suc more) k eliminated draws =
    let picks =
      (exchange eliminated k (k + get_or draws 0 0 % (length eliminated - k)) >>= λ eliminated'.
      get_elem? eliminated' k >>= λ c.
      pick_eliminated more (suc k) eliminated' (later_draws draws) >>= λ r.
      some (record { items = pos c ∷ r.items; order = r.order; draws = r.draws })) in
    if leb (length eliminated) k then none else picks

-- What one comparison reads besides the state.
pub record Sampling (F : Type 0) : Type 0 where
  pub evidence : ℕ → F  -- the best of the searched directions
  pub scores : ℕ → F  -- the draw of a candidate's posterior
  pub draws : List ℕ

pub record Sampled : Type 0 where
  pub items : List ℤ
  pub sampler : Sampler

-- The assembly and the positioning.
unfoldable pub assemble : Profile → ℕ → List ℕ → List ℕ → List ℕ → List ℕ → Sampler → Option Sampled
unfolding controls_from pick_eliminated position baseline_supply up_to
assemble p positions active eliminated coverage draws s =
    let n = p.max_width in
    let nc = up_to (baseline_supply p) (pos (n - positions)) in
    controls_from nc 0 >>= λ controls.
    pick_eliminated (n - positions - nc) 0 eliminated draws >>= λ r.
    position n r.draws (map pos (take positions active) ++ (controls ++ r.items)) >>= λ items.
    some (record {
      items = items;
      sampler = record s { active = active; eliminated = r.order; coverage = coverage };
    })

module _ {F : Type 0} (above : F → F → Bool) (minus_inf zero_evidence : F) where
  unfoldable pub sample_comparison : Profile → ℕ → Sampling F → Sampler → Option Sampled
  unfolding cover fill_positions leader_from pin assemble
  sample_comparison p reserve g s =
      let n = p.max_width in
      let l =
        leader_from above g.evidence s.active (record { index = none; log_evidence = minus_inf }) in
      let positions = min (length s.active) (n - reserve) in
      let sampled =
        (cover positions s.dropped s.coverage s.active 0 >>= λ c.
        fill_positions above (positions - c.at) c.at c.order (map g.scores c.order) >>= λ filled.
        pin (above l.log_evidence zero_evidence) positions c.at filled l.index >>= λ pinned.
        assemble p positions pinned s.eliminated c.rest g.draws s) in
      if length s.active == 0 then some (record { items = []; sampler = s }) else sampled

-- `sampleConfirmation`
unfoldable pub sample_confirmation : Profile → ℕ → List ℕ → Option (List ℤ)
unfolding controls_from position baseline_supply up_to
sample_confirmation p nominee draws =
    controls_from (up_to (baseline_supply p) (pos (p.max_width - 1))) 0 >>= λ controls.
    position (suc (length controls)) draws (pos nominee ∷ controls)
