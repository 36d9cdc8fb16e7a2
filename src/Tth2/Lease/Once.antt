-- ===== src/Tth2/Lease/Once.antt =====
-- A lease (tth2/lease.go) gives its connection up exactly once.
use tturl.Common.{
  ℕ, suc, ◌≡◌, refl, sym, ap, subst, ◌⊎◌, inl, inr, Bool, true, false, none, some, List, [], ◌∷◌,
  ◌++◌, Bool-cases, append-nil,
}
use tturl.Tth2.Lease.{
  PoolCall, puts_back, drops, Attempt, LeaseState, lease_closed, lease_active, lease_invalid,
  ConnLease, new_lease, is_active, send_active, send_batch, send_in, owner_send, owner_release,
  owner_discard, let_go, shut, close, discard,
}

pub data LeaseOp (B : Type 0) : Type 0 where
  sends : (well_formed : Bool) → Attempt B → LeaseOp B
  closes discards : LeaseOp B

module _ {B : Type 0} where
  unfoldable pub lease_op : ConnLease → LeaseOp B → ConnLease × List PoolCall
  unfolding send_batch close discard
  lease_op l (sends well_formed a) =
      ((send_batch l well_formed a).lease, (send_batch l well_formed a).calls)
  lease_op l closes = close l
  lease_op l discards = discard l

  -- The lease after some of its methods, and all that they asked of the pool.
  unfoldable pub lease_run : ConnLease → List (LeaseOp B) → ConnLease × List PoolCall
  unfolding lease_op
  lease_run l [] = (l, [])
  lease_run l (op ∷ ops) =
      let first = lease_op l op in let rest = lease_run first.0 ops in (rest.0, first.1 ++ rest.1)

-- An active lease holds its connection and has asked nothing of the pool.
pub record HoldsConn (conn epoch : ℕ) (l : ConnLease) : Type 0 where
  pub state : l.state ≡ lease_active
  pub held : l.owner.held ≡ true
  pub has : l.owner.conn ≡ some conn
  pub in_epoch : l.owner.epoch ≡ epoch
  pub pacing : l.pace_closes ≡ 0

-- Any other lease has let go of everything.
pub record HoldsNothing (l : ConnLease) : Type 0 where
  pub inactive : is_active l ≡ false
  pub held : l.owner.held ≡ false
  pub has : l.owner.conn ≡ none
  pub pacing : l.pace_closes ≡ 1

-- What a lease asks of the pool over its life: nothing while it holds the connection, and then to
-- pool it or to drop it, once.
abbrev pub GivesUpOnce : ℕ → ℕ → ConnLease × List PoolCall → Type 0
GivesUpOnce conn epoch r =
    (HoldsConn conn epoch r.0 × (r.1 ≡ []))
    ⊎ (HoldsNothing r.0 × ((r.1 ≡ puts_back conn epoch ∷ []) ⊎ (r.1 ≡ drops conn ∷ [])))

module _ (conn epoch : ℕ) (l : ConnLease) (h : HoldsConn conn epoch l) where
  holding-active : is_active l ≡ true
  unfolding is_active
  holding-active = rw h.state refl

  close-GivesUp : GivesUpOnce conn epoch (close l)
  unfolding close shut owner_release let_go
  close-GivesUp =
      rw (holding-active, h.held, h.has, h.in_epoch)
        (inr
          (record { inactive = refl; held = refl; has = refl; pacing = ap suc h.pacing }, inl refl))

  discard-GivesUp : GivesUpOnce conn epoch (discard l)
  unfolding discard shut owner_discard let_go
  discard-GivesUp =
      rw (holding-active, h.held, h.has)
        (inr
          (record { inactive = refl; held = refl; has = refl; pacing = ap suc h.pacing }, inr refl))

module _ {B : Type 0} where
  send_active-GivesUp :
      (conn epoch : ℕ) (l : ConnLease) (well_formed : Bool) (a : Attempt B)
      → HoldsConn conn epoch l
      → GivesUpOnce conn epoch
          ((send_active l well_formed a).lease, (send_active l well_formed a).calls)
  unfolding send_active owner_send let_go is_active
  send_active-GivesUp conn epoch l well_formed a h = elim (Bool-cases well_formed) [
    | inr bad ↦ rw bad (inl (h, refl))
    | inl good ↦ elim (Bool-cases a.failed) [
      | inr fine ↦
          rw (good, fine, h.held)
            (inl (
              record {
                state = h.state;
                held = refl;
                has = h.has;
                in_epoch = h.in_epoch;
                pacing = h.pacing;
              },
              refl,
            ))
      | inl failed ↦ elim (Bool-cases a.keep_conn) [
        | inl keep ↦
            rw (good, failed, keep, h.held)
              (inl (
                record {
                  state = h.state;
                  held = refl;
                  has = h.has;
                  in_epoch = h.in_epoch;
                  pacing = h.pacing;
                },
                refl,
              ))
        | inr lost ↦
            rw (good, failed, lost, h.has)
              (inr (
                record { inactive = refl; held = refl; has = refl; pacing = ap suc h.pacing },
                inr refl,
              ))
      ]
    ]
  ]

  send_batch-GivesUp :
      (conn epoch : ℕ) (l : ConnLease) (well_formed : Bool) (a : Attempt B)
      → HoldsConn conn epoch l
      → GivesUpOnce conn epoch
          ((send_batch l well_formed a).lease, (send_batch l well_formed a).calls)
  unfolding send_batch send_in
  send_batch-GivesUp conn epoch l well_formed a h =
      subst
        (λ st.
          GivesUpOnce conn epoch
            ((send_in st l well_formed a).lease, (send_in st l well_formed a).calls))
        (sym h.state) (send_active-GivesUp conn epoch l well_formed a h)

  send_in-over :
      (l : ConnLease) (well_formed : Bool) (a : Attempt B) (st : LeaseState)
      → l.state ≡ st
      → HoldsNothing l
      → HoldsNothing (send_in st l well_formed a).lease × ((send_in st l well_formed a).calls ≡ [])
  unfolding send_in is_active
  send_in-over l well_formed a lease_closed e h = (h, refl)
  send_in-over l well_formed a lease_invalid e h = (h, refl)
  send_in-over l well_formed a lease_active e h =
      let active : is_active l ≡ true = rw e refl in cc (active, h.inactive)

  send_batch-over :
      (l : ConnLease) (well_formed : Bool) (a : Attempt B)
      → HoldsNothing l
      → HoldsNothing (send_batch l well_formed a).lease × ((send_batch l well_formed a).calls ≡ [])
  unfolding send_batch
  send_batch-over l well_formed a h = send_in-over l well_formed a l.state refl h

  lease_op-holding :
      (conn epoch : ℕ) (l : ConnLease) (op : LeaseOp B)
      → HoldsConn conn epoch l
      → GivesUpOnce conn epoch (lease_op l op)
  unfolding lease_op
  lease_op-holding conn epoch l (sends well_formed a) h =
      send_batch-GivesUp conn epoch l well_formed a h
  lease_op-holding conn epoch l closes h = close-GivesUp conn epoch l h
  lease_op-holding conn epoch l discards h = discard-GivesUp conn epoch l h

  lease_op-over :
      (l : ConnLease) (op : LeaseOp B)
      → HoldsNothing l
      → HoldsNothing (lease_op l op).0 × ((lease_op l op).1 ≡ [])
  unfolding lease_op close discard
  lease_op-over l (sends well_formed a) h = send_batch-over l well_formed a h
  lease_op-over l closes h = rw h.inactive (h, refl)
  lease_op-over l discards h = rw h.inactive (h, refl)

  lease_run-over :
      (l : ConnLease) (ops : List (LeaseOp B))
      → HoldsNothing l
      → HoldsNothing (lease_run l ops).0 × ((lease_run l ops).1 ≡ [])
  unfolding lease_run
  lease_run-over l [] h = (h, refl)
  lease_run-over l (op ∷ ops) h =
      let (here, quiet) = lease_op-over l op h in
      let (rest, silent) = lease_run-over (lease_op l op).0 ops here in rw quiet (rest, silent)

  lease_run-GivesUp :
      (conn epoch : ℕ) (l : ConnLease) (ops : List (LeaseOp B))
      → HoldsConn conn epoch l
      → GivesUpOnce conn epoch (lease_run l ops)
  unfolding lease_run
  lease_run-GivesUp conn epoch l [] h = inl (h, refl)
  lease_run-GivesUp conn epoch l (op ∷ ops) h = elim (lease_op-holding conn epoch l op h) [
    | inl (still, quiet) ↦ rw quiet (lease_run-GivesUp conn epoch (lease_op l op).0 ops still)
    | inr (over, given) ↦
        let (rest, silent) = lease_run-over (lease_op l op).0 ops over in
        rw (silent, append-nil (lease_op l op).1) (inr (rest, given))
  ]

  -- Whatever methods are called on an acquired lease, and however its batches end: while it is active
  -- it holds its connection and has asked nothing of the pool. Once it is not, it has either pooled that
  -- connection, in the epoch it was acquired in, or dropped it, exactly once, and has closed its
  -- pacing exactly once.
  pub lease_run-once :
      (conn epoch : ℕ) (reused : Bool) (ops : List (LeaseOp B))
      → GivesUpOnce conn epoch (lease_run (new_lease conn epoch reused) ops)
  unfolding new_lease
  lease_run-once conn epoch reused ops =
      lease_run-GivesUp conn epoch (new_lease conn epoch reused) ops
        (record { state = refl; held = refl; has = refl; in_epoch = refl; pacing = refl })
