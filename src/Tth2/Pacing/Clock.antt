-- ===== src/Tth2/Pacing/Clock.antt =====
-- One clock of the scheduler (tth2/pacing.go): when a batch of some width may start.
use tturl.Common.{ℕ, ◌+◌, ◌-◌, ◌^◌, ◌≤◌, ◌≡◌, Bool, true, not, ◌||◌, arith, ltb, leb, if◌then◌else◌}

-- What `float64` gives the code. The laws of its arithmetic are not needed.
pub record Float64 : Type 1 where
  pub F : Type 0
  pub of_int : ℕ → F
  pub mul : F → F → F
  pub div : F → F → F
  pub ceil : F → F
  pub at_least : F → F → Bool
  pub to_int : F → ℕ
  pub positive : F → Bool
  pub is_inf : F → Bool

abbrev pub second : ℕ
second = 1_000_000_000

abbrev pub max_int64 : ℕ
max_int64 = 2 ^ 63 - 1

unfoldable pub later_time : ℕ → ℕ → ℕ
later_time a b = if ltb a b then b else a

module _ (fp : Float64) where
  open fp use {F, of_int, mul, div, ceil, at_least, to_int, positive, is_inf}

  pub record PaceConfig : Type 0 where
    pub requests_per_second : F
    pub min_batch_interval : ℕ

  pub record PaceState : Type 0 where
    pub config : PaceConfig
    pub last : ℕ
    pub started : Bool

  unfoldable pub active : PaceConfig → Bool
  active c = positive c.requests_per_second || ltb 0 c.min_batch_interval

  unfoldable pub request_interval : ℕ → F → ℕ
  request_interval width per_second =
      let nanos = ceil (div (mul (of_int width) (of_int second)) per_second) in
      if leb width 0 || (not (positive per_second) || is_inf per_second)
      then 0
      else if at_least nanos (of_int max_int64)
      then max_int64
      else to_int nanos

  unfoldable pub ready_at : PaceState → ℕ → ℕ
  unfolding later_time request_interval
  ready_at s width =
      let ready = s.last + s.config.min_batch_interval in
      let d = request_interval width s.config.requests_per_second in
      if not s.started then 0 else if ltb 0 d then later_time ready (s.last + d) else ready

  -- A started clock is ready once both of its intervals have passed since its last release.
  pub ready_at-started :
      (s : PaceState) (width now : ℕ)
      → s.started ≡ true
      → ready_at s width ≤ now
      → (s.last + s.config.min_batch_interval ≤ now)
        × (s.last + request_interval width s.config.requests_per_second ≤ now)
  unfolding ready_at
  ready_at-started s width now on h = ground (arith, on)
