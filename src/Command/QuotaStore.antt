-- ===== src/Command/QuotaStore.antt =====
-- cmd/tturl/demo_server_quota.go: the store of the quotas, a map and a list of the same elements. A
-- token is the number of its random bytes, which its base64 text stands for; the random source is
-- the list of its reads, `none` one that fails. An element is identified by its `id`, as by its
-- address in the source; a new quota is identified by its number. The source takes its lock for each
-- attempt of a `create`; an attempt that collides changes nothing, and all attempts of a call are one
-- step here.
pub mod Elements
pub mod Calls
pub mod Evicting
pub mod Recency
pub mod Refining
mod Examples
use tturl.Common.{
  ℕ, zero, suc, ◌+◌, Bool, true, false, Option, none, some, List, [], ◌∷◌, length, ◌==◌,
  if◌then◌else◌, ◌>>=◌,
}

-- `list.Element` with its `demoQuotaEntry`.
pub record Element : Type 0 where
  pub id : ℕ
  pub token : ℕ
  pub quota : ℕ

pub record DemoQuotaStore : Type 0 where
  pub maximum : ℕ
  pub by_id : List (ℕ × Element)
  pub recent : List Element  -- the front first
  pub fresh : ℕ  -- the next address

unfoldable pub new_demo_quota_store : ℕ → DemoQuotaStore
new_demo_quota_store maximum = record { maximum = maximum; by_id = []; recent = []; fresh = 0 }

unfoldable pub lookup : List (ℕ × Element) → ℕ → Option Element
lookup [] token = none
lookup ((t, e) ∷ m) token = let rest = lookup m token in if t == token then some e else rest

-- `delete(s.byID, token)`
unfoldable pub delete_key : ℕ → List (ℕ × Element) → List (ℕ × Element)
delete_key token [] = []
delete_key token ((t, e) ∷ m) =
    let rest = delete_key token m in if t == token then rest else (t, e) ∷ rest

-- `s.recent.Remove(e)`
unfoldable pub remove_element : ℕ → List Element → List Element
remove_element id [] = []
remove_element id (e ∷ es) =
    let rest = remove_element id es in if e.id == id then rest else e ∷ rest

-- `s.recent.Back()`
unfoldable pub back : List Element → Option Element
back [] = none
back (e ∷ []) = some e
back (e ∷ e' ∷ es) = back (e' ∷ es)

-- The eviction; a list without a back panics.
unfoldable pub evict : DemoQuotaStore → Option DemoQuotaStore
unfolding back remove_element delete_key
evict s =
    let evicted =
      (back s.recent >>= λ oldest. some (record s {
        by_id = delete_key oldest.token s.by_id;
        recent = remove_element oldest.id s.recent;
      })) in
    if length s.recent == s.maximum then evicted else some s

unfoldable pub push : DemoQuotaStore → ℕ → DemoQuotaStore
unfolding delete_key
push s token =
    let element : Element = record { id = s.fresh; token = token; quota = s.fresh } in
    record s {
      by_id = (token, element) ∷ delete_key token s.by_id;
      recent = element ∷ s.recent;
      fresh = suc s.fresh;
    }

pub data StoreReply : Type 0 where
  read_failed no_unique_token not_found : StoreReply
  created : (token : ℕ) → StoreReply
  found : (quota : ℕ) → StoreReply

-- What one attempt does with its token: `again` is what a token in use leads to.
abbrev pub attempt :
    DemoQuotaStore
    → ℕ
    → Option Element
    → Option (DemoQuotaStore × StoreReply)
    → Option (DemoQuotaStore × StoreReply)
attempt s token (some e) again = again
attempt s token none again = evict s >>= λ s'. some (push s' token, created token)

unfoldable pub create_from :
    ℕ → List (Option ℕ) → DemoQuotaStore → Option (DemoQuotaStore × StoreReply)
unfolding evict push lookup
create_from zero reads s = some (s, no_unique_token)
create_from (suc attempts) [] s = some (s, read_failed)
create_from (suc attempts) (none ∷ reads) s = some (s, read_failed)
create_from (suc attempts) (some token ∷ reads) s =
    attempt s token (lookup s.by_id token) (create_from attempts reads s)

abbrev pub demo_quota_token_attempts : ℕ
demo_quota_token_attempts = 16

unfoldable pub create : List (Option ℕ) → DemoQuotaStore → Option (DemoQuotaStore × StoreReply)
unfolding create_from
create reads s = create_from demo_quota_token_attempts reads s

abbrev pub got : DemoQuotaStore → Option Element → DemoQuotaStore × StoreReply
got s none = (s, not_found)
got s (some e) = (record s { recent = e ∷ remove_element e.id s.recent }, found e.quota)

unfoldable pub get : ℕ → DemoQuotaStore → DemoQuotaStore × StoreReply
unfolding lookup remove_element
get token s = got s (lookup s.by_id token)

pub data StoreCall : Type 0 where
  creates : (reads : List (Option ℕ)) → StoreCall
  gets : (token : ℕ) → StoreCall

unfoldable pub store_call : DemoQuotaStore → StoreCall → Option (DemoQuotaStore × StoreReply)
unfolding create get
store_call s (creates reads) = create reads s
store_call s (gets token) = some (get token s)

unfoldable pub store_calls :
    DemoQuotaStore → List StoreCall → Option (DemoQuotaStore × List StoreReply)
unfolding store_call
store_calls s [] = some (s, [])
store_calls s (c ∷ cs) =
    store_call s c >>= λ r. store_calls r.0 cs >>= λ rest. some (rest.0, r.1 ∷ rest.1)
