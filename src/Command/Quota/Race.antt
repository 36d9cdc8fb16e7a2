-- ===== src/Command/Quota/Race.antt =====
-- How far requests that race overrun a quota (cmd/tturl/demo_server_quota.go).
use tturl.Common.{
  ℕ, ◌+◌, ◌-◌, ◌%◌, ◌^◌, ◌≤◌, ◌<◌, ◌≡◌, refl, ap, inl, inr, Bool, true, false, some, List, [], ◌∷◌,
  ◌++◌, get_elem?, set, upto, arith, ◌==◌, if◌then◌else◌, Option-cases, sum_by, sum_by-set,
  sum_by-append, sum_by-replicate, get_elem?-lt, get_or-of_get, upto-append,
}
use native.Mathlib.Nat.{mod-eq_of_lt}
use tturl.Command.Quota.{
  QuotaUse, UsePhase, waiting, checked, refused, received, available, accept, snapshot, use_from,
  use_quota, use_all, new_use,
}

abbrev pub is_checked : UsePhase → ℕ
is_checked checked = 1
is_checked _ = 0

abbrev pub has_receipt : ℕ → UsePhase → ℕ
has_receipt a (received r) = if r == a then 1 else 0
has_receipt a _ = 0

-- How many requests are between their check and their count.
abbrev pub gap : QuotaUse → ℕ
gap u = sum_by is_checked u.requests

-- At most `w` requests are in the gap at any time of the run.
abbrev pub IsGapWithin : ℕ → QuotaUse → List ℕ → Type 0
IsGapWithin w u [] = gap u ≤ w
IsGapWithin w u (k ∷ ks) = (gap u ≤ w) × IsGapWithin w (use_quota u k) ks

-- The receipts are the numbers from 1 to the count, each of them once.
abbrev pub HasReceipts : QuotaUse → Type 0
HasReceipts u =
    (a : ℕ)
    → sum_by (has_receipt a) u.requests
      ≡ sum_by (λ x. if x == a then 1 else 0) (upto 1 u.quota.accepted)

-- What holds of a quota in use, with at most `w` requests in the gap so far.
pub record IsUse (w : ℕ) (u : QuotaUse) : Type 0 where
  pub bound : u.quota.accepted + gap u ≤ w
  pub receipts : HasReceipts u

next_receipt :
    (a n : ℕ)
    → sum_by (λ x. if x == a then 1 else 0) (upto 1 (n + 1))
      ≡ sum_by (λ x. if x == a then 1 else 0) (upto 1 n) + (if n + 1 == a then 1 else 0)
next_receipt a n =
    let one : upto 1 (n + 1) ≡ upto 1 n ++ ((1 + n) ∷ []) = upto-append 1 n 1 in
    rw one (
      let sum = sum_by-append (λ x. if x == a then 1 else 0) (upto 1 n) ((1 + n) ∷ []) in
      ground (arith, sum))

-- A request that goes from one phase to another trades what it counts.
traded :
    (f : UsePhase → ℕ) (phases : List UsePhase) (k : ℕ) (old new : UsePhase)
    → get_elem? phases k ≡ some old
    → sum_by f (set phases k new) + f old ≡ sum_by f phases + f new
traded f phases k old new at_k =
    let got = ap f (get_or-of_get phases k old at_k) in
    omega (arith, sum_by-set f phases k new old (get_elem?-lt phases k at_k), got)

checks-IsUse :
    (w : ℕ) (u : QuotaUse) (k : ℕ) (free : Bool)
    → 1 ≤ w
    → get_elem? u.requests k ≡ some waiting
    → available u.quota ≡ free
    → IsUse w u
    → sum_by is_checked (set u.requests k (if free then checked else refused)) ≤ w
    → IsUse w (record u { requests = set u.requests k (if free then checked else refused) })
unfolding available
checks-IsUse w u k true some_gap at_k e ok room = record {
  bound = ground (arith, e, room);
  receipts = λ a.
      let trade = traded (has_receipt a) u.requests k waiting checked at_k in
      omega (arith, trade, ok.receipts a);
}
checks-IsUse w u k false some_gap at_k e ok room = record {
  bound =
      let trade = traded is_checked u.requests k waiting refused at_k in
      omega (arith, trade, ok.bound);
  receipts = λ a.
      let trade = traded (has_receipt a) u.requests k waiting refused at_k in
      omega (arith, trade, ok.receipts a);
}

accepts-IsUse :
    (w : ℕ) (u : QuotaUse) (k n : ℕ)
    → get_elem? u.requests k ≡ some checked
    → IsUse w u
    → n ≡ u.quota.accepted + 1
    → IsUse w (record { quota = record { accepted = n }; requests = set u.requests k (received n) })
accepts-IsUse w u k n at_k ok e = record {
  bound =
      let trade = traded is_checked u.requests k checked (received n) at_k in
      omega (arith, trade, ok.bound, e);
  receipts = λ a.
      let trade = traded (has_receipt a) u.requests k checked (received n) at_k in
      rw e (
        let trade' = rw e at trade in
        omega (arith, trade', ok.receipts a, next_receipt a u.quota.accepted));
}

use_from-IsUse :
    (w : ℕ) (u : QuotaUse) (k : ℕ) (phase : UsePhase)
    → 1 ≤ w
    → w < 2 ^ 64
    → get_elem? u.requests k ≡ some phase
    → IsUse w u
    → gap (use_from u k phase) ≤ w
    → IsUse w (use_from u k phase)
unfolding use_from accept
use_from-IsUse w u k waiting some_gap small at_k ok room =
    checks-IsUse w u k (available u.quota) some_gap at_k refl ok room
use_from-IsUse w u k checked some_gap small at_k ok room =
    let trade = traded is_checked u.requests k checked refused at_k in
    let below : u.quota.accepted + 1 < 2 ^ 64 = omega (arith, ok.bound, trade, small) in
    accepts-IsUse w u k ((u.quota.accepted + 1) % 2 ^ 64) at_k ok (mod-eq_of_lt below)
use_from-IsUse w u k refused some_gap small at_k ok room = ok
use_from-IsUse w u k (received r) some_gap small at_k ok room = ok

use_quota-IsUse :
    (w : ℕ) (u : QuotaUse) (k : ℕ)
    → 1 ≤ w
    → w < 2 ^ 64
    → IsUse w u
    → gap (use_quota u k) ≤ w
    → IsUse w (use_quota u k)
unfolding use_quota
use_quota-IsUse w u k some_gap small ok room = elim (Option-cases (get_elem? u.requests k)) [
  | inl e ↦ rw e ok
  | inr (phase, e) ↦ rw e (use_from-IsUse w u k phase some_gap small e ok (rw e at room))
]

first_gap : (w : ℕ) (u : QuotaUse) (ks : List ℕ) → IsGapWithin w u ks → gap u ≤ w
first_gap w u [] h = h
first_gap w u (k ∷ ks) h = h.0

use_all-IsUse :
    (w : ℕ) (u : QuotaUse) (ks : List ℕ)
    → 1 ≤ w
    → w < 2 ^ 64
    → IsUse w u
    → IsGapWithin w u ks
    → IsUse w (use_all u ks)
unfolding use_all
use_all-IsUse w u [] some_gap small ok within = ok
use_all-IsUse w u (k ∷ ks) some_gap small ok within =
    use_all-IsUse w (use_quota u k) ks some_gap small
      (use_quota-IsUse w u k some_gap small ok (first_gap w (use_quota u k) ks within.1)) within.1

new_use-IsUse : (w n : ℕ) → IsUse w (new_use n)
unfolding new_use
new_use-IsUse w n = record {
  bound = omega (arith, sum_by-replicate is_checked n waiting refl);
  receipts = λ a. sum_by-replicate (has_receipt a) n waiting refl;
}

-- If at most `w` requests are ever between their check and their count, where `w` is at least 1 and
-- below 2^64, then whatever the order of the steps a quota of one is taken at most `w` times, by the
-- overrun of the status at most `w - 1` times too often, and the receipts are the numbers from 1 to
-- the count, each of them once.
pub use_all-overrun :
    (w n : ℕ) (ks : List ℕ)
    → 1 ≤ w
    → w < 2 ^ 64
    → IsGapWithin w (new_use n) ks
    → let u : QuotaUse = use_all (new_use n) ks in
      (u.quota.accepted ≤ w) × ((snapshot u.quota).overrun ≤ w - 1) × HasReceipts u
unfolding snapshot
use_all-overrun w n ks some_gap small within =
    let ok = use_all-IsUse w (new_use n) ks some_gap small (new_use-IsUse w n) within in
    let bound = ok.bound in (omega (arith, bound), ground (arith, bound), ok.receipts)
