-- ===== src/Tth2/Pool/Eviction.antt =====
-- Which connections `takeIdle` (tth2/transport.go) evicts, reuses and leaves.
use tturl.Common.{
  ℕ, ◌+◌, ◌≤◌, ◌<◌, ◌≡◌, refl, ap, ◌⊎◌, All-map, inl, inr, List, [], ◌∷◌, ◌++◌, All, arith,
  Bool-cases, ltb,
}
use tturl.Tth2.Pool.{
  IdleConn, OriginPool, is_expired, split_expired, take_idle, Taken, first_conn, rest_of,
}

-- Connections in the order in which they became idle.
abbrev pub Since : ℕ → List IdleConn → Type 0
Since t [] = Unit
Since t (c ∷ idle) = (t ≤ c.since) × Since c.since idle

-- Idle for longer than the limit.
abbrev pub IsOld : OriginPool → ℕ → IdleConn → Type 0
IsOld p now c = (0 < p.idle_timeout) × (c.since + p.idle_timeout < now)

abbrev pub IsLive : OriginPool → ℕ → IdleConn → Type 0
IsLive p now c = (p.idle_timeout ≡ 0) ⊎ (now ≤ c.since + p.idle_timeout)

pub record Evicts (p : OriginPool) (now : ℕ) (r : Taken) : Type 0 where
  -- the live connections are those that are left and the one reused, which is the oldest of them
  pub live : List IdleConn
  pub splits : p.idle ≡ r.expired ++ live
  pub oldest : first_conn live ≡ r.reuse
  pub left : rest_of live ≡ r.pool.idle
  pub all_old : All (IsOld p now) r.expired
  pub endless-IsLive : All (IsLive p now) live

later_live :
    (timeout now t : ℕ) (idle : List IdleConn)
    → now ≤ t + timeout
    → Since t idle
    → All (λ c. now ≤ c.since + timeout) idle
later_live timeout now t [] h k = tt
later_live timeout now t (c ∷ idle) h k =
    (omega (arith, h, k.0), later_live timeout now c.since idle (omega (arith, h, k.0)) k.1)

split_expired_lem :
    (timeout now t : ℕ) (idle : List IdleConn)
    → Since t idle
    → let r = split_expired timeout now idle in
      (idle ≡ r.0 ++ r.1)
      × All (λ c. c.since + timeout < now) r.0
      × All (λ c. now ≤ c.since + timeout) r.1
unfolding split_expired is_expired
split_expired_lem timeout now t [] h = (refl, tt, tt)
split_expired_lem timeout now t (c ∷ idle) h =
    let (e, old, live) = split_expired_lem timeout now c.since idle h.1 in
    elim (Bool-cases (is_expired timeout now c)) [
      | inl expired ↦ rw expired (ap (◌∷◌ c) e, (ground (arith, expired), old), live)
      | inr fresh ↦ rw fresh (
        refl,
        tt,
        (ground (arith, fresh), later_live timeout now c.since idle (ground (arith, fresh)) h.1),
      )
    ]

endless-IsLive :
    (p : OriginPool) (now : ℕ) (idle : List IdleConn) → p.idle_timeout ≡ 0 → All (IsLive p now) idle
endless-IsLive p now [] h = tt
endless-IsLive p now (c ∷ idle) h = (inl h, endless-IsLive p now idle h)

-- If the idle connections stand in the order in which they became idle, `takeIdle` evicts exactly those
-- that were idle for longer than the limit, reuses the oldest of the others and leaves the rest.
pub take_idle-Evicts : (p : OriginPool) (now : ℕ) → Since 0 p.idle → Evicts p now (take_idle p now)
unfolding take_idle
take_idle-Evicts p now h = elim (Bool-cases (ltb 0 p.idle_timeout)) [
  | inl limited ↦
      let on : 0 < p.idle_timeout = ground (arith, limited) in
      let (e, old, live) = split_expired_lem p.idle_timeout now 0 p.idle h in
      rw limited (record {
        live = (split_expired p.idle_timeout now p.idle).1;
        splits = e;
        oldest = refl;
        left = refl;
        all_old = All-map _ (IsOld p now) _ (λ c o. (on, o)) old;
        endless-IsLive = All-map _ (IsLive p now) _ (λ c l. inr l) live;
      })
  | inr endless ↦
      let off : p.idle_timeout ≡ 0 = ground (arith, endless) in
      rw endless (record {
        live = p.idle;
        splits = refl;
        oldest = refl;
        left = refl;
        all_old = tt;
        endless-IsLive = endless-IsLive p now p.idle off;
      })
]
