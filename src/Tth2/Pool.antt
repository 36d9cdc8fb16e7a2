-- ===== src/Tth2/Pool.antt =====
-- tth2/transport.go: the connections of one origin. A connection is its number, a time is in
-- nanoseconds, and the buffered channel of tokens is the number of tokens in it. Each critical section
-- is a function of the pool; `Step` interleaves the calls of any number of goroutines between them.
pub mod Bound
pub mod Eviction
mod Examples
use tturl.Common.{
  ℕ, zero, suc, ◌+◌, ◌≡◌, Bool, true, false, ◌&&◌, Option, none, some, List, [], ◌∷◌, ◌++◌, map,
  get_elem?, set, ltb, ◌==◌, if◌then◌else◌, replicate,
}
use tturl.Common.Int.{ℤ, pos, negsuc}

pub record IdleConn : Type 0 where
  pub conn : ℕ
  pub since : ℕ

pub record OriginPool : Type 0 where
  pub tokens : ℕ
  pub idle_timeout : ℕ  -- 0 for a source value at or below zero, which sets no limit
  pub idle : List IdleConn
  pub epoch : ℕ

unfoldable pub max_conns : ℤ → ℕ
max_conns (pos (suc n)) = suc n
max_conns _ = 1

unfoldable pub new_pool : ℤ → ℕ → OriginPool
unfolding max_conns
new_pool max_conns_per_host idle_timeout = record {
  tokens = max_conns max_conns_per_host;
  idle_timeout = idle_timeout;
  idle = [];
  epoch = 0;
}

-- `since.Before(now - idleTimeout)`
unfoldable pub is_expired : ℕ → ℕ → IdleConn → Bool
is_expired idle_timeout now c = ltb (c.since + idle_timeout) now

-- The leading prefix of expired connections, and the rest.
unfoldable pub split_expired : ℕ → ℕ → List IdleConn → List IdleConn × List IdleConn
unfolding is_expired
split_expired idle_timeout now [] = ([], [])
split_expired idle_timeout now (c ∷ idle) =
    let (expired, live) = split_expired idle_timeout now idle in
    if is_expired idle_timeout now c then (c ∷ expired, live) else ([], c ∷ idle)

pub record Taken : Type 0 where
  pub pool : OriginPool
  pub expired : List IdleConn
  pub reuse : Option ℕ

abbrev pub first_conn : List IdleConn → Option ℕ
first_conn [] = none
first_conn (c ∷ _) = some c.conn

abbrev pub rest_of : List IdleConn → List IdleConn
rest_of [] = []
rest_of (_ ∷ idle) = idle

unfoldable pub take_idle : OriginPool → ℕ → Taken
unfolding split_expired
take_idle p now =
    let (expired, live) =
      (if ltb 0 p.idle_timeout then split_expired p.idle_timeout now p.idle else ([], p.idle)) in
    record { pool = record p { idle = rest_of live }; expired = expired; reuse = first_conn live }

-- The critical section of `putIdle`: true when the connection is pooled, false when it is stale and
-- the caller closes it.
unfoldable pub put_idle : OriginPool → ℕ → ℕ → ℕ → OriginPool × Bool
put_idle p conn epoch now =
    if epoch == p.epoch
    then (record p { idle = p.idle ++ record { conn = conn; since = now } ∷ [] }, true)
    else (p, false)

-- `CloseIdleConnections` for this origin.
unfoldable pub close_idle : OriginPool → OriginPool
close_idle p = record p { idle = []; epoch = suc p.epoch }

unfoldable pub release_token : OriginPool → OriginPool
release_token p = record p { tokens = suc p.tokens }

-- Where a call stands. A call holds a token unless it is `outside`.
pub data Phase : Type 0 where
  outside : Phase
  admitted : Phase  -- has a token and not yet looked at the idle connections
  evicting : (reuse : Option ℕ) (epoch : ℕ) → Phase  -- closes what had expired
  dialling : (epoch : ℕ) → Phase
  in_use : (conn epoch : ℕ) → Phase
  returned : Phase  -- the connection is idle again and the token not yet released
  closing : (conn : ℕ) → Phase

pub record System : Type 0 where
  pub pool : OriginPool
  pub calls : List Phase

abbrev pub next_state : System → ℕ → OriginPool → Phase → System
next_state s i pool phase = record { pool = pool; calls = set s.calls i phase }

abbrev pub after_eviction : Option ℕ → ℕ → Phase
after_eviction none epoch = dialling epoch
after_eviction (some conn) epoch = in_use conn epoch

abbrev pub after_put : Bool → ℕ → Phase
after_put pooled conn = if pooled then returned else closing conn

-- A call `i` goes from one critical section to its next.
pub data Step (s : System) : System → Type 0 where
  takes_token :
      (i t : ℕ)
      → get_elem? s.calls i ≡ some outside
      → s.pool.tokens ≡ suc t
      → Step s (next_state s i (record (s.pool) { tokens = t }) admitted)
  takes_idle :
      (i now : ℕ)
      → get_elem? s.calls i ≡ some admitted
      → Step s (
          next_state s i
            (take_idle s.pool now).pool
            (evicting (take_idle s.pool now).reuse s.pool.epoch))
  closes_expired :
      (i : ℕ) (reuse : Option ℕ) (epoch : ℕ)
      → get_elem? s.calls i ≡ some (evicting reuse epoch)
      → Step s (next_state s i s.pool (after_eviction reuse epoch))
  dials :
      (i epoch conn : ℕ)
      → get_elem? s.calls i ≡ some (dialling epoch)
      → Step s (next_state s i s.pool (in_use conn epoch))
  dial_fails :
      (i epoch : ℕ)
      → get_elem? s.calls i ≡ some (dialling epoch)
      → Step s (next_state s i (release_token s.pool) outside)
  puts_idle :
      (i conn epoch now : ℕ)
      → get_elem? s.calls i ≡ some (in_use conn epoch)
      → Step s (
          next_state s i
            (put_idle s.pool conn epoch now).0
            (after_put (put_idle s.pool conn epoch now).1 conn))
  discards :
      (i conn epoch : ℕ)
      → get_elem? s.calls i ≡ some (in_use conn epoch)
      → Step s (next_state s i s.pool (closing conn))
  releases :
      (i : ℕ)
      → get_elem? s.calls i ≡ some returned
      → Step s (next_state s i (release_token s.pool) outside)
  closes :
      (i conn : ℕ)
      → get_elem? s.calls i ≡ some (closing conn)
      → Step s (next_state s i (release_token s.pool) outside)
  closes_all_idle : Step s (record s { pool = close_idle s.pool })

-- What a pool of `calls` goroutines comes to.
pub data Reachable (max_conns_per_host : ℤ) (idle_timeout calls : ℕ) : System → Type 0 where
  starts :
      Reachable max_conns_per_host idle_timeout calls (record {
        pool = new_pool max_conns_per_host idle_timeout;
        calls = replicate calls outside;
      })
  steps :
      {s t : System}
      → Reachable max_conns_per_host idle_timeout calls s
      → Step s t
      → Reachable max_conns_per_host idle_timeout calls t
