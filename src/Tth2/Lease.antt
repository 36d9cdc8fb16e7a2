-- ===== src/Tth2/Lease.antt =====
-- tth2/lease.go and tth2/connection_owner.go: a lease of one connection. The pool is what its calls
-- leave for it to do, and what an attempt to send a batch comes to is an argument: `Attempt` is the
-- result of the source's `attempt` on that connection.
pub mod Once
mod Examples
use tturl.Common.{
  ℕ, suc, ◌≡◌, Bool, true, false, not, ◌&&◌, Option, none, some, List, [], ◌∷◌, ◌++◌, if◌then◌else◌,
}

-- What an owner asks of its pool: `putIdle` or `discard`.
pub data PoolCall : Type 0 where
  puts_back : (conn epoch : ℕ) → PoolCall
  drops : (conn : ℕ) → PoolCall

pub record ConnOwner : Type 0 where
  pub conn : Option ℕ
  pub epoch : ℕ
  pub held : Bool
  pub reused : Bool

pub data LeaseState : Type 0 where
  lease_closed lease_active lease_invalid : LeaseState

module _ (B : Type 0) where
  pub record Attempt : Type 0 where
    pub batch : Option B
    pub keep_conn : Bool
    pub failed : Bool  -- the error is not nil
    pub is_local : Bool  -- `isLocalBatchTermination` of the error
    pub ctx_ended : Bool  -- the context has ended after the attempt

  pub record Sent : Type 0 where
    pub owner : ConnOwner
    pub calls : List PoolCall
    pub batch : Option B
    pub stale : Bool
    pub failed : Bool

-- The connection leaves its owner.
unfoldable pub let_go : ConnOwner → ConnOwner
let_go o = record o { conn = none; held = false; reused = false }

abbrev pub drop_conn : Option ℕ → List PoolCall
drop_conn none = []
drop_conn (some c) = drops c ∷ []

abbrev pub put_conn : Option ℕ → ℕ → List PoolCall
put_conn none epoch = []
put_conn (some c) epoch = puts_back c epoch ∷ []

-- `acquire`, with what the pool gives: a connection, whether it was pooled, and the epoch.
unfoldable pub owner_acquire : ConnOwner → Option (ℕ × Bool × ℕ) → ConnOwner × Bool
owner_acquire o given = if o.held then (o, false) else elim given [
  | none ↦ (o, false)
  | some (c, reused, epoch) ↦
      (record { conn = some c; epoch = epoch; held = true; reused = reused }, true)
]

unfoldable pub owner_release : ConnOwner → ConnOwner × List PoolCall
unfolding let_go
owner_release o = if o.held then (let_go o, put_conn o.conn o.epoch) else (o, [])

unfoldable pub owner_discard : ConnOwner → ConnOwner × List PoolCall
unfolding let_go
owner_discard o = if o.held then (let_go o, drop_conn o.conn) else (o, [])

module _ {B : Type 0} where
  unfoldable pub owner_send : ConnOwner → Attempt B → Sent B
  unfolding let_go
  owner_send o a =
      if not a.failed
      then record {
        owner = record o { reused = false };
        calls = [];
        batch = a.batch;
        stale = false;
        failed = false;
      }
      else if a.keep_conn
      then record {
        owner = record o { reused = false };
        calls = [];
        batch = a.batch;
        stale = false;
        failed = true;
      }
      else record {
        owner = let_go o;
        calls = drop_conn o.conn;
        batch = none;
        stale = if a.ctx_ended then false else (o.reused && not a.is_local);
        failed = true;
      }

-- The mutex of a lease is held for each method, so each is one function of its state. `pace_closes`
-- counts the closings of its pacing run.
pub record ConnLease : Type 0 where
  pub owner : ConnOwner
  pub state : LeaseState
  pub pace_closes : ℕ

-- `Acquire`, once the pool gave a connection that is live.
unfoldable pub new_lease : ℕ → ℕ → Bool → ConnLease
new_lease conn epoch reused = record {
  owner = record { conn = some conn; epoch = epoch; held = true; reused = reused };
  state = lease_active;
  pace_closes = 0;
}

unfoldable pub is_active : ConnLease → Bool
is_active l = elim l.state [ lease_active ↦ true | _ ↦ false ]

pub data SendError : Type 0 where
  err_lease_closed err_lease_invalid bad_batch attempt_failed : SendError

pub record LeaseSent (B : Type 0) : Type 0 where
  pub lease : ConnLease
  pub calls : List PoolCall
  pub batch : Option B
  pub error : Option SendError

module _ {B : Type 0} where
  -- `SendBatch` on an active lease, for a batch that is well formed and for the lease's origin or not.
  unfoldable pub send_active : ConnLease → Bool → Attempt B → LeaseSent B
  unfolding owner_send
  send_active l well_formed a =
      let sent = owner_send l.owner a in
      let error = (if sent.failed then some attempt_failed else none) in
      if not well_formed
      then record { lease = l; calls = []; batch = none; error = some bad_batch }
      else if sent.owner.held
      then record {
        lease = record l { owner = sent.owner };
        calls = sent.calls;
        batch = sent.batch;
        error = error;
      }
      else record {
        lease = record {
          owner = sent.owner;
          state = lease_invalid;
          pace_closes = suc l.pace_closes;
        };
        calls = sent.calls;
        batch = sent.batch;
        error = error;
      }

  -- `SendBatch` in each state of the lease.
  unfoldable pub send_in : LeaseState → ConnLease → Bool → Attempt B → LeaseSent B
  unfolding send_active
  send_in lease_closed l well_formed a = record {
    lease = l;
    calls = [];
    batch = none;
    error = some err_lease_closed;
  }
  send_in lease_invalid l well_formed a = record {
    lease = l;
    calls = [];
    batch = none;
    error = some err_lease_invalid;
  }
  send_in lease_active l well_formed a = send_active l well_formed a

  unfoldable pub send_batch : ConnLease → Bool → Attempt B → LeaseSent B
  unfolding send_in
  send_batch l well_formed a = send_in l.state l well_formed a

-- The end of `Close` and `Discard` on an active lease.
unfoldable pub shut : ConnLease → ConnOwner × List PoolCall → ConnLease × List PoolCall
shut l r = (record { owner = r.0; state = lease_closed; pace_closes = suc l.pace_closes }, r.1)

unfoldable pub close : ConnLease → ConnLease × List PoolCall
unfolding is_active shut owner_release
close l = if is_active l then shut l (owner_release l.owner) else (l, [])

unfoldable pub discard : ConnLease → ConnLease × List PoolCall
unfolding is_active shut owner_discard
discard l = if is_active l then shut l (owner_discard l.owner) else (l, [])
