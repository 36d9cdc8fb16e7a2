-- ===== src/Tth2/Lease/Examples.antt =====
-- The theorem on leases (tth2/lease.go) at a batch that loses its connection.
use tturl.Common.{ℕ, ◌≡◌, refl, some, none, true, false, List, [], ◌∷◌}
use tturl.Tth2.Lease.{Attempt, drops, new_lease}
use tturl.Tth2.Lease.Once.{LeaseOp, sends, closes, discards, lease_run, GivesUpOnce, lease_run-once}

abbrev fine : Attempt ℕ
fine = record {
  batch = some 1;
  keep_conn = true;
  failed = false;
  is_local = false;
  ctx_ended = false;
}

abbrev lost : Attempt ℕ
lost = record fine { batch = none; keep_conn = false; failed = true }

abbrev uses_of_lease : List (LeaseOp ℕ)
uses_of_lease = sends true fine ∷ sends true lost ∷ sends true fine ∷ closes ∷ discards ∷ []

dropped_once : (lease_run (new_lease 9 4 true) uses_of_lease).1 ≡ drops 9 ∷ []
unfolding lease_run new_lease
dropped_once = refl

lease_run-once_example : GivesUpOnce 9 4 (lease_run (new_lease 9 4 true) uses_of_lease)
lease_run-once_example = lease_run-once 9 4 true uses_of_lease
