-- ===== src/Tth2/TrialSend.antt =====
-- tth2/trialstream.go: the loop `sendTrial` of a worker, which sends one trial on a connection that is
-- live and primed. What a connection does is an argument: a turn of the loop is given how acquiring
-- it, priming it and sending on it end.
pub mod Retries
mod Examples
use tturl.Common.{
  ℕ, zero, suc, ◌+◌, ◌≤◌, Bool, true, false, Option, none, some, List, [], ◌∷◌, leb, if◌then◌else◌,
}

-- How sending one warmup batch ends: well; with an error that leaves the connection; with bad padding or
-- an ended context; with the connection lost.
pub data WarmSend : Type 0 where
  warm_ok warm_tolerated warm_fatal warm_lost : WarmSend

pub record WarmTurn : Type 0 where
  pub sending : WarmSend
  pub emitted : Bool  -- the run has not stopped, so the warmup is handed on

-- How `warm` ends: primed, stopped, with an error that is final, or with a connection to replace.
pub data WarmEnd : Type 0 where
  primed priming_stopped priming_failed connection_died : WarmEnd

unfoldable pub after_warm : WarmSend → WarmEnd → WarmEnd
after_warm warm_fatal rest = priming_failed
after_warm warm_lost rest = connection_died
after_warm _ rest = rest

-- The loop of `warm`, over its batches.
unfoldable pub warm : List WarmTurn → WarmEnd
unfolding after_warm
warm [] = primed
warm (t ∷ ts) =
    let rest = warm ts in if t.emitted then after_warm t.sending rest else priming_stopped

-- How sending the trial's batch ends: well; on a pooled connection that had died; before its headers
-- went out, with the connection lost and the context live; or otherwise.
pub data SendEnd : Type 0 where
  batch_ok batch_stale batch_unsent batch_failed : SendEnd

-- `acquired` is an error, or whether the connection is fresh.
pub record Turn : Type 0 where
  pub acquired : Option Bool
  pub stopping : Bool
  pub warming : List WarmTurn
  pub sending : SendEnd

pub data TrialEnd : Type 0 where
  delivered sent_in_vain stopped_early : TrialEnd
  acquire_failed priming_ended replacement_failed : TrialEnd  -- these end the run

-- What the loop does after a turn.
pub data Next : Type 0 where
  returns : TrialEnd → Next
  continues replaces : Next

unfoldable pub send_next_batch : SendEnd → Next
send_next_batch batch_ok = returns delivered
send_next_batch batch_stale = continues
send_next_batch batch_unsent = replaces
send_next_batch batch_failed = returns sent_in_vain

unfoldable pub prime : WarmEnd → SendEnd → Next
unfolding send_next_batch
prime primed sending = send_next_batch sending
prime priming_stopped sending = returns priming_ended
prime priming_failed sending = returns priming_ended
prime connection_died sending = replaces

unfoldable pub take_turn : Option Bool → Turn → Next
unfolding send_next_batch warm prime
take_turn none t = returns acquire_failed
take_turn (some fresh) t =
    if t.stopping
    then returns stopped_early
    else if fresh
    then prime (warm t.warming) t.sending
    else send_next_batch t.sending

-- `replace` lets one connection go.
abbrev pub after_turn : Next → ℕ → Option TrialEnd → Option TrialEnd → Option TrialEnd
after_turn (returns e) replacements again replaced = some e
after_turn continues replacements again replaced = again
after_turn replaces replacements again replaced =
    if leb (replacements + 1) 1 then replaced else some replacement_failed

-- The loop, on what its turns find; `none` where it is not over after them.
unfoldable pub send_trial : ℕ → List Turn → Option TrialEnd
unfolding take_turn
send_trial replacements [] = none
send_trial replacements (t ∷ ts) =
    let again = send_trial replacements ts in
    let replaced = send_trial (replacements + 1) ts in
    after_turn (take_turn t.acquired t) replacements again replaced
