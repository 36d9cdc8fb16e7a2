-- ===== src/Tth2/Streams.antt =====
-- tth2/conn.go: the peer's SETTINGS and the stream IDs of a connection. A frame's settings are a list,
-- which the HTTP/2 package hands over in the frame's order until the callback fails.
pub mod Settings
pub mod Allocation
mod Examples
use tturl.Common.{
  ℕ, zero, suc, ◌+◌, ◌-◌, ◌*◌, ◌%◌, ◌^◌, ◌≤◌, ◌≡◌, Bool, true, false, ◌||◌, Option, none, some,
  List, [], ◌∷◌, map, upto, ltb, leb, if◌then◌else◌, ◌>>=◌,
}
use tturl.Common.Int.{ℤ, pos, negsuc, ◌-ℤ◌}
use tturl.Tth2.Flow.{
  max_data_frame_payload, max_initial_window_size, max_max_frame_size, max_stream_id, wrap_int32,
}

pub data Setting : Type 0 where
  initial_window_size max_frame_size max_concurrent_streams : ℕ → Setting
  other_setting : Setting

-- What the peer last set, published under one lock.
pub record PeerSettings : Type 0 where
  pub init_stream_window : ℕ
  pub max_frame : ℕ
  pub max_streams : ℕ

-- The callback of `applySettingsValues` over the settings of a frame, `none` at its first error.
unfoldable pub read_setting : PeerSettings → Setting → Option PeerSettings
read_setting p (initial_window_size val) =
    if ltb max_initial_window_size val then none else some (record p { init_stream_window = val })
read_setting p (max_frame_size val) =
    if ltb val max_data_frame_payload || ltb max_max_frame_size val
    then none
    else some (record p { max_frame = val })
read_setting p (max_concurrent_streams val) = some (record p { max_streams = val })
read_setting p other_setting = some p

unfoldable pub read_settings : PeerSettings → List Setting → Option PeerSettings
unfolding read_setting
read_settings p [] = some p
read_settings p (s ∷ settings) = do q ← read_setting p s; read_settings q settings

-- What is published, and the change of the initial window; `none` is an error, which leaves the
-- settings as they were.
unfoldable pub apply_settings_values : PeerSettings → List Setting → Option (PeerSettings × ℤ)
unfolding read_settings wrap_int32
apply_settings_values p settings = do
  q ← read_settings p settings
  let delta =
      wrap_int32 (wrap_int32 (pos q.init_stream_window) -ℤ wrap_int32 (pos p.init_stream_window))
  some (q, delta)

-- True when the batch may be sent.
unfoldable pub check_peer_stream_limit : PeerSettings → ℕ → Bool → Bool
check_peer_stream_limit p width ignored = ignored || leb width p.max_streams

-- The next stream ID, and the IDs reserved; `none` is the error of an exhausted ID space.
unfoldable pub allocate_stream_ids : ℕ → ℤ → ℕ × Option (List ℕ)
allocate_stream_ids next_id (negsuc n) = (next_id, some [])
allocate_stream_ids next_id (pos zero) = (next_id, some [])
allocate_stream_ids next_id (pos (suc n)) =
    if ltb max_stream_id ((next_id + 2 * n) % 2 ^ 64) then (next_id, none) else (
      (next_id + 2 * suc n % 2 ^ 32) % 2 ^ 32,
      some (map (λ i. (next_id + 2 * i % 2 ^ 32) % 2 ^ 32) (upto 0 (suc n))),
    )
