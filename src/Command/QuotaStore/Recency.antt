-- ===== src/Command/QuotaStore/Recency.antt =====
-- The store of quotas as a list of tokens and quotas, the last one used first, with a new token in
-- place of the last entry once it is full (cmd/tturl/demo_server_quota.go).
use tturl.Common.{ℕ, zero, suc, Option, none, some, List, [], ◌∷◌, length, ◌==◌, if◌then◌else◌}
use tturl.Command.QuotaStore.{
  StoreReply, StoreCall, creates, gets, created, found, not_found, read_failed, no_unique_token,
  demo_quota_token_attempts,
}
use tturl.Command.QuotaStore.Elements.{without}
use tturl.Command.QuotaStore.Evicting.{drop_last}

pub record RecencyList : Type 0 where
  pub maximum : ℕ
  pub entries : List (ℕ × ℕ)
  pub fresh : ℕ

unfoldable pub quota_of : ℕ → List (ℕ × ℕ) → Option ℕ
quota_of token [] = none
quota_of token ((t, q) ∷ es) = let rest = quota_of token es in if t == token then some q else rest

abbrev pub list_shown : RecencyList → ℕ → Option ℕ → RecencyList × StoreReply
list_shown l token none = (l, not_found)
list_shown l token (some q) = (record l { entries = (token, q) ∷ without token l.entries }, found q)

abbrev pub list_added : RecencyList → ℕ → RecencyList
list_added l token = record l {
  entries =
      (token, l.fresh) ∷ (if length l.entries == l.maximum then drop_last l.entries else l.entries);
  fresh = suc l.fresh;
}

abbrev pub list_attempt :
    RecencyList → ℕ → Option ℕ → RecencyList × StoreReply → RecencyList × StoreReply
list_attempt l token (some q) again = again
list_attempt l token none again = (list_added l token, created token)

unfoldable pub list_create : ℕ → List (Option ℕ) → RecencyList → RecencyList × StoreReply
unfolding quota_of
list_create zero reads l = (l, no_unique_token)
list_create (suc attempts) [] l = (l, read_failed)
list_create (suc attempts) (none ∷ reads) l = (l, read_failed)
list_create (suc attempts) (some token ∷ reads) l =
    list_attempt l token (quota_of token l.entries) (list_create attempts reads l)

unfoldable pub list_call : RecencyList → StoreCall → RecencyList × StoreReply
unfolding list_create quota_of
list_call l (creates reads) = list_create demo_quota_token_attempts reads l
list_call l (gets token) = list_shown l token (quota_of token l.entries)

unfoldable pub list_calls : RecencyList → List StoreCall → RecencyList × List StoreReply
unfolding list_call
list_calls l [] = (l, [])
list_calls l (c ∷ cs) =
    let r = list_call l c in let rest = list_calls r.0 cs in (rest.0, r.1 ∷ rest.1)
