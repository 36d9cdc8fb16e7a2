-- ===== src/Command/Quota.antt =====
-- cmd/tturl/demo_server_quota.go: a quota of the demo server, and the requests that use it. The check
-- and the count of a request are two critical sections, which are two steps here; the order of the
-- steps of all requests is a list. A `uint64` wraps around.
pub mod Race
mod Examples
use tturl.Common.{
  ℕ, zero, suc, ◌+◌, ◌-◌, ◌%◌, ◌^◌, ◌≤◌, Bool, true, false, Option, none, some, List, [], ◌∷◌,
  replicate, get_elem?, set, ltb, if◌then◌else◌, sum_by,
}

abbrev pub demo_quota_limit : ℕ
demo_quota_limit = 1

pub record DemoQuota : Type 0 where
  pub accepted : ℕ

unfoldable pub available : DemoQuota → Bool
available q = ltb q.accepted demo_quota_limit

-- The receipt is the new count.
unfoldable pub accept : DemoQuota → DemoQuota
accept q = record { accepted = (q.accepted + 1) % 2 ^ 64 }

pub record DemoQuotaStatus : Type 0 where
  pub limit : ℕ
  pub accepted : ℕ
  pub overrun : ℕ

unfoldable pub snapshot : DemoQuota → DemoQuotaStatus
snapshot q = record {
  limit = demo_quota_limit;
  accepted = q.accepted;
  overrun = if ltb demo_quota_limit q.accepted then q.accepted - demo_quota_limit else 0;
}

-- Where a request to `useQuota` stands: before its check, in the gap, refused, or with its receipt.
pub data UsePhase : Type 0 where
  waiting checked refused : UsePhase
  received : (receipt : ℕ) → UsePhase

pub record QuotaUse : Type 0 where
  pub quota : DemoQuota
  pub requests : List UsePhase

unfoldable pub use_from : QuotaUse → ℕ → UsePhase → QuotaUse
unfolding available accept
use_from u k waiting = record u {
  requests = set u.requests k (if available u.quota then checked else refused);
}
use_from u k checked =
    let q = accept u.quota in
    record { quota = q; requests = set u.requests k (received q.accepted) }
use_from u k _ = u

-- A step of a request that does not exist changes nothing.
abbrev pub at_request : QuotaUse → ℕ → Option UsePhase → QuotaUse
at_request u k none = u
at_request u k (some phase) = use_from u k phase

unfoldable pub use_quota : QuotaUse → ℕ → QuotaUse
unfolding use_from
use_quota u k = at_request u k (get_elem? u.requests k)

unfoldable pub use_all : QuotaUse → List ℕ → QuotaUse
unfolding use_quota
use_all u [] = u
use_all u (k ∷ ks) = use_all (use_quota u k) ks

-- `n` requests on a new quota.
unfoldable pub new_use : ℕ → QuotaUse
new_use n = record { quota = record { accepted = 0 }; requests = replicate n waiting }
