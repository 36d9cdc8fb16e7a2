-- ===== src/Tth2/Streams/Allocation.antt =====
-- The stream IDs that a connection hands out over its life.
use tturl.Common.{ℕ, zero, suc, ◌+◌, ◌^◌, none, some, List, [], ◌∷◌, ◌++◌}
use tturl.Common.Int.{pos}
use tturl.Tth2.Streams.{allocate_stream_ids}

-- `n` stream IDs of the client, from `next_id` on.
abbrev pub ids_from : ℕ → ℕ → List ℕ
ids_from next_id zero = []
ids_from next_id (suc n) = next_id ∷ ids_from (next_id + 2) n

-- The requests of a batch are far fewer than an `int` can count.
abbrev pub max_width : ℕ
max_width = 2 ^ 32

-- The batches of a connection, by width: the next ID after them, and all IDs in order.
unfoldable pub allocate_all : ℕ → List ℕ → ℕ × List ℕ
unfolding allocate_stream_ids
allocate_all next_id [] = (next_id, [])
allocate_all next_id (n ∷ widths) =
    let r = allocate_stream_ids next_id (pos n) in
    let rest = allocate_all r.0 widths in
    (rest.0, (elim r.1 [ none ↦ [] | some ids ↦ ids ]) ++ rest.1)
