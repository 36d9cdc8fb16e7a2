-- ===== src/Command/QuotaStore/Examples.antt =====
-- A store of two quotas.
use tturl.Common.{◌≡◌, refl, arith, none, some, List, [], ◌∷◌}
use tturl.Command.QuotaStore.{
  StoreCall, creates, gets, created, found, not_found, read_failed, new_demo_quota_store,
  store_calls,
}
use tturl.Command.QuotaStore.Recency.{list_calls}
use tturl.Command.QuotaStore.Refining.{RefinesAll, store_calls-RefinesAll}

-- Token 7 is used before the third token comes, so that 8 is evicted.
abbrev some_calls : List StoreCall
some_calls =
    creates (some 7 ∷ [])
    ∷ creates (some 7 ∷ some 8 ∷ [])
    ∷ gets 7
    ∷ creates (some 9 ∷ [])
    ∷ gets 8
    ∷ gets 7
    ∷ creates (none ∷ [])
    ∷ []

some_calls-replies :
    (list_calls (record { maximum = 2; entries = []; fresh = 0 }) some_calls).1
    ≡ created 7 ∷ created 8 ∷ found 0 ∷ created 9 ∷ not_found ∷ found 0 ∷ read_failed ∷ []
unfolding list_calls
some_calls-replies = refl

store_calls-RefinesAll_example :
    RefinesAll
      (list_calls (record { maximum = 2; entries = []; fresh = 0 }) some_calls)
      (store_calls (new_demo_quota_store 2) some_calls)
store_calls-RefinesAll_example = store_calls-RefinesAll 2 some_calls (omega arith)
