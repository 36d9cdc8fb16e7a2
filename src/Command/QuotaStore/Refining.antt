-- ===== src/Command/QuotaStore/Refining.antt =====
-- The store of quotas does what its list of tokens and quotas does (cmd/tturl/demo_server_quota.go).
use tturl.Common.{
  ℕ, zero, suc, ◌≤◌, ◌<◌, ◌≡◌, ◌≢◌, refl, sym, subst, inl, inr, Option, none, some, List, [], ◌∷◌,
  length, length-map, arith, All, All-map, ◌==◌, Bool-cases, Option-cases, ◌>>=◌,
}
use tturl.Command.QuotaStore.{
  Element, DemoQuotaStore, StoreReply, StoreCall, creates, gets, created, new_demo_quota_store,
  lookup, remove_element, evict, push, create_from, create, get, store_call, store_calls,
  demo_quota_token_attempts,
}
use tturl.Command.QuotaStore.Elements.{
  find_token, IsApart, AreApart, entry, view, unfound, found-token, view-remove_element,
}
use tturl.Command.QuotaStore.Calls.{
  IsStore, new_demo_quota_store-IsStore, got-IsStore, lookup-delete_key,
}
use tturl.Command.QuotaStore.Evicting.{Evicts, evict-Evicts}
use tturl.Command.QuotaStore.Recency.{
  RecencyList, quota_of, list_shown, list_added, list_create, list_call, list_calls,
}

abbrev pub abstracts : DemoQuotaStore → RecencyList
abstracts s = record { maximum = s.maximum; entries = view s.recent; fresh = s.fresh }

abbrev quota_in : Option Element → Option ℕ
quota_in none = none
quota_in (some e) = some e.quota

quota_of-view :
    (token : ℕ) (es : List Element) → quota_of token (view es) ≡ quota_in (find_token token es)
unfolding quota_of
quota_of-view token [] = refl
quota_of-view token (x ∷ es) = elim (Bool-cases (x.token == token)) [
  | inl e ↦ rw e refl
  | inr e ↦ rw e (quota_of-view token es)
]

-- A call that returns, in step with the list.
pub record Refines (l : RecencyList × StoreReply) (r : Option (DemoQuotaStore × StoreReply))
    : Type 0 where
  pub result : DemoQuotaStore
  pub returns : r ≡ some (result, l.1)
  pub ok : IsStore result
  pub same : abstracts result ≡ l.0

-- A new element is apart from the older ones.
new-IsApart :
    (fresh token : ℕ) (es : List Element)
    → All (λ e. e.id < fresh) es
    → All (λ e. e.token ≢ token) es
    → All (IsApart (record { id = fresh; token = token; quota = fresh })) es
new-IsApart fresh token [] old other = tt
new-IsApart fresh token (x ∷ es) old other = (
  ((λ e. omega (arith, old.0, e)), (λ e. other.0 (sym e))),
  new-IsApart fresh token es old.1 other.1,
)

push-IsStore :
    (k : DemoQuotaStore) (token : ℕ)
    → AreApart k.recent
    → ((t : ℕ) → lookup k.by_id t ≡ find_token t k.recent)
    → All (λ e. e.id < k.fresh) k.recent
    → length k.recent < k.maximum
    → find_token token k.recent ≡ none
    → IsStore (push k token)
unfolding push lookup
push-IsStore k token apart agree old room unused = record {
  apart = (new-IsApart k.fresh token k.recent old (unfound token k.recent unused), apart);
  agree = λ t. elim (Bool-cases (token == t)) [
    | inl e ↦ rw e refl
    | inr e ↦
        let others = lookup-delete_key token k.by_id t in
        let others' = rw e at others in let same = agree t in rw (e, others', same) refl
  ];
  old = (
    omega arith,
    All-map (λ e. e.id < k.fresh) (λ e. e.id < suc k.fresh) k.recent (λ e h. omega (arith, h)) old,
  );
  room = omega (arith, room);
  some_room = omega (arith, room);
}

pushed-Refines :
    (s : DemoQuotaStore) (token : ℕ)
    → find_token token s.recent ≡ none
    → Evicts s (evict s)
    → Refines
        (list_added (abstracts s) token, created token)
        (evict s >>= λ s'. some (push s' token, created token))
unfolding push
pushed-Refines s token unused e =
    let fresh = e.fresh in
    let maximum = e.maximum in
    let seen = e.seen in
    let size : length (view s.recent) ≡ length s.recent = length-map entry s.recent in
    record {
      result = push e.result token;
      returns = rw e.returns refl;
      ok =
          push-IsStore e.result token e.apart e.agree
            (subst (λ k. All (λ x. x.id < k) e.result.recent) (sym fresh) e.old) e.room
            (e.unused token unused);
      same = rw (size, fresh, maximum, seen) refl;
    }

create_from-Refines :
    (attempts : ℕ) (reads : List (Option ℕ)) (s : DemoQuotaStore)
    → IsStore s
    → Refines (list_create attempts reads (abstracts s)) (create_from attempts reads s)
unfolding create_from list_create
create_from-Refines zero reads s ok = record { result = s; returns = refl; ok = ok; same = refl }
create_from-Refines (suc attempts) [] s ok = record {
  result = s;
  returns = refl;
  ok = ok;
  same = refl;
}
create_from-Refines (suc attempts) (none ∷ reads) s ok = record {
  result = s;
  returns = refl;
  ok = ok;
  same = refl;
}
create_from-Refines (suc attempts) (some token ∷ reads) s ok =
    let again = create_from-Refines attempts reads s ok in
    let agree = ok.agree token in
    let shown = quota_of-view token s.recent in
    elim (Option-cases (find_token token s.recent)) [
      | inl e ↦ rw (agree, shown, e) (pushed-Refines s token e (evict-Evicts s ok))
      | inr (x, e) ↦ rw (agree, shown, e) again
    ]

get-Refines :
    (token : ℕ) (s : DemoQuotaStore)
    → IsStore s
    → Refines (list_shown (abstracts s) token (quota_of token (view s.recent))) (some (get token s))
unfolding get
get-Refines token s ok =
    let agree = ok.agree token in
    let shown = quota_of-view token s.recent in
    elim (Option-cases (find_token token s.recent)) [
      | inl e ↦ rw (agree, shown, e) (record { result = s; returns = refl; ok = ok; same = refl })
      | inr (x, e) ↦
          let is_token = found-token token s.recent e in
          let kept = view-remove_element token s.recent x ok.apart e in
          rw (agree, shown, e)
            (record {
              result = record s { recent = x ∷ remove_element x.id s.recent };
              returns = refl;
              ok = got-IsStore s token x ok e;
              same = rw (is_token, kept) refl;
            })
    ]

store_call-Refines :
    (s : DemoQuotaStore) (c : StoreCall)
    → IsStore s
    → Refines (list_call (abstracts s) c) (store_call s c)
unfolding store_call list_call create
store_call-Refines s (creates reads) ok = create_from-Refines demo_quota_token_attempts reads s ok
store_call-Refines s (gets token) ok = get-Refines token s ok

-- Calls that return, in step with the list.
pub record RefinesAll (l : RecencyList × List StoreReply)
    (r : Option (DemoQuotaStore × List StoreReply)) : Type 0 where
  pub result : DemoQuotaStore
  pub returns : r ≡ some (result, l.1)
  pub ok : IsStore result
  pub same : abstracts result ≡ l.0

calls_from :
    (s : DemoQuotaStore) (cs : List StoreCall)
    → IsStore s
    → RefinesAll (list_calls (abstracts s) cs) (store_calls s cs)
unfolding store_calls list_calls
calls_from s [] ok = record { result = s; returns = refl; ok = ok; same = refl }
calls_from s (c ∷ cs) ok =
    let first = store_call-Refines s c ok in
    let rest = calls_from first.result cs first.ok in
    let rest' : RefinesAll (list_calls ((list_call (abstracts s) c).0) cs)
        (store_calls first.result cs) =
      subst (λ k. RefinesAll (list_calls k cs) (store_calls first.result cs)) first.same rest in
    record {
      result = rest'.result;
      returns = rw (first.returns, rest'.returns) refl;
      ok = rest'.ok;
      same = rest'.same;
    }

-- A store of at least one quota never panics and answers every sequence of calls as the list does
-- that has the last token used first, that `get` moves to its front, and that loses its last entry
-- to a new token once it is full; its map and its list hold the same tokens, each once, and no more
-- than the maximum of them.
pub store_calls-RefinesAll :
    (maximum : ℕ) (cs : List StoreCall)
    → 1 ≤ maximum
    → RefinesAll
        (list_calls (record { maximum = maximum; entries = []; fresh = 0 }) cs)
        (store_calls (new_demo_quota_store maximum) cs)
unfolding new_demo_quota_store
store_calls-RefinesAll maximum cs some_room =
    calls_from (new_demo_quota_store maximum) cs (new_demo_quota_store-IsStore maximum some_room)
