-- ===== src/Tth2/Sending/Reserving.antt =====
-- The plan that `sendGreedyBodyPhase` chooses is one that the flow control grants.
use tturl.Common.{ℕ, ◌≤◌, ◌<◌, ◌≡◌, true, Option, none, some, List, length, get_or, map, All, ◌^◌}
use tturl.Common.Int.{ℤ, pos, pos_part, ◌-ℤ◌}
use tturl.Tth2.Flow.{FlowControl, reserve}
use tturl.Tth2.Flow.Reserve.{demand, debited}
use tturl.Tth2.Records.{Bodies}
use tturl.Tth2.Records.Sizes.{IsCapped, AreIndices}
use tturl.Tth2.Records.Planning.{AreBodies, IsUnsent}
use tturl.Tth2.Records.Plans.{IsPlan, IsNothing}
use tturl.Tth2.Sending.{Sending}

-- What the window of stream `j` allows.
abbrev pub window_of : List ℤ → ℕ → ℕ
window_of stream j = pos_part (get_or stream j (pos 0))

-- What the caller knows of the batch: the streams that carry a body are listed in order, each has
-- unsent bytes, and the flow control has a window for every stream.
pub record IsReady (f : FlowControl) (s : Sending) : Type 0 where
  pub streams : length f.stream ≡ length s.data_len
  pub indices : AreIndices (length s.data_len) 0 s.carrying
  pub unsent :
      All
        (λ i. (get_or s.sent i 0 < get_or s.data_len i 0) × (get_or s.data_len i 0 < 2 ^ 63))
        s.carrying

-- `reserve` grants the plan, and debits every window by its part.
abbrev pub IsGranted : FlowControl → List ℕ → Type 0
IsGranted f plan =
    reserve f (map pos plan)
    ≡ some (
      record f {
        conn_window = f.conn_window -ℤ pos (demand (map pos plan));
        stream = debited f.stream (map pos plan);
      },
      true,
    )

abbrev pub IsNext : FlowControl → Bodies → Option (List ℕ) → Type 0
IsNext f b none = IsNothing b f.conn_window
IsNext f b (some plan) = IsPlan b f.conn_window plan × IsGranted f plan

record AreOffered (f : FlowControl) (b : Bodies) : Type 0 where
  bodies : AreBodies b
  windows : IsCapped (window_of f.stream) b.caps
  streams : length b.caps ≤ length f.stream
  unsent : All (IsUnsent b) b.carrying
