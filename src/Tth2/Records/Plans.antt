-- ===== src/Tth2/Records/Plans.antt =====
-- The plans that the planner returns.
use tturl.Common.{
  length, ℕ, zero, suc, ◌+◌, ◌*◌, ◌/◌, ◌%◌, ◌^◌, ◌≤◌, ◌<◌, ◌≡◌, ◌⊎◌, ◌↔◌, Bool, Option, none, some,
  List, [], ◌∷◌, get_or, arith, ltb, ◌==◌, true, All, ◌&&◌, ◌||◌,
}
use tturl.Common.Int.{ℤ, pos_part}
use tturl.Tth2.Body.{tls_record_plaintext_budget}
use tturl.Tth2.Records.{
  Bodies, frame_cost, less_body_progress, common_progress, is_feasible, measure, amount,
}
use tturl.Tth2.Records.Sizes.{cap_of, payload_of, size_of, total, IsCapped}
use tturl.Tth2.Records.Search.{IsLow, IsHigh, search_progress-ends}

-- Stream `i` cannot take one more byte: its cap is planned, or a byte, with a frame header if it is the
-- stream's first, passes the record.
abbrev pub CannotGrow : Bodies → List ℕ → ℕ → Type 0
CannotGrow b plan i =
    (get_or b.caps i 0 ≤ get_or plan i 0)
    ⊎ (tls_record_plaintext_budget < size_of plan + frame_cost (get_or plan i 0))

pub record IsPlan (b : Bodies) (conn_credit : ℤ) (plan : List ℕ) : Type 0 where
  pub same_length : length plan ≡ length b.caps
  pub sends : 0 < payload_of plan
  pub capped : IsCapped (cap_of b) plan
  pub in_credit : payload_of plan ≤ pos_part conn_credit
  pub in_record : size_of plan ≤ tls_record_plaintext_budget

abbrev pub IsMaximal : Bodies → ℤ → List ℕ → Type 0
IsMaximal b conn_credit plan =
    (payload_of plan ≡ pos_part conn_credit) ⊎ All (CannotGrow b plan) b.carrying

abbrev pub IsNothing : Bodies → ℤ → Type 0
IsNothing b conn_credit = (pos_part conn_credit ≡ 0) ⊎ All (λ i. get_or b.caps i 0 ≡ 0) b.carrying

-- What a result of the planner promises.
abbrev pub IsResult : Bodies → ℤ → Option (List ℕ) → Type 0
IsResult b conn_credit none = IsNothing b conn_credit
IsResult b conn_credit (some plan) = IsPlan b conn_credit plan × IsMaximal b conn_credit plan

pub get_or-le_total : (xs : List ℕ) (i : ℕ) → get_or xs i 0 ≤ total (λ x. x) xs
get_or-le_total [] i = omega arith
get_or-le_total (x ∷ xs) zero = omega arith
get_or-le_total (x ∷ xs) (suc i) = omega (arith, get_or-le_total xs i)

-- The common progress that the planner chooses is 0 or one whose bytes fit the credit and the record,
-- and it is the whole of the bodies or the next progress does not fit: the binary search ends there.
pub common_progress_lem :
    (b : Bodies) (conn_credit : ℤ) (scale : ℕ) (first : List ℕ)
    → let fits = λ (p : ℕ). is_feasible conn_credit (measure (amount b scale first p) b.carrying) in
      let progress = common_progress b conn_credit scale first in
      IsLow fits progress × IsHigh fits scale progress
unfolding common_progress
common_progress_lem b conn_credit scale first =
    let fits = λ (p : ℕ). is_feasible conn_credit (measure (amount b scale first p) b.carrying) in
    search_progress-ends fits scale

abbrev words_less : ℕ → ℕ → Bool
words_less l r =
    ltb (l / 2 ^ 64) (r / 2 ^ 64) || ((l / 2 ^ 64 == r / 2 ^ 64) && ltb (l % 2 ^ 64) (r % 2 ^ 64))

words_less_lt : (l r : ℕ) → words_less l r ≡ true → l < r
words_less_lt l r h = ground (arith, h)

lt_words_less : (l r : ℕ) → l < r → words_less l r ≡ true
lt_words_less l r h = ground (arith, h)

-- `lessBodyProgress` compares the fractions sent / length exactly, by their cross products: the two
-- words of a product never lose a carry.
pub less_body_progress_iff :
    (b : Bodies) (plan : List ℕ) (x y : ℕ)
    → (less_body_progress b plan x y ≡ true) ↔ (
        (get_or b.sent x 0 + get_or plan x 0) * get_or b.data_len y 0
        < (get_or b.sent y 0 + get_or plan y 0) * get_or b.data_len x 0)
unfolding less_body_progress
less_body_progress_iff b plan x y =
    let left = (get_or b.sent x 0 + get_or plan x 0) * get_or b.data_len y 0 in
    let right = (get_or b.sent y 0 + get_or plan y 0) * get_or b.data_len x 0 in
    ((λ h. words_less_lt left right h), (λ h. lt_words_less left right h))
