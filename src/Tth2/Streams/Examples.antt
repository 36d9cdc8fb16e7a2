-- ===== src/Tth2/Streams/Examples.antt =====
-- The theorems on SETTINGS and stream IDs (tth2/conn.go) at a few values.
use tturl.Common.{◌≡◌, refl, some, List, [], ◌∷◌, arith}
use tturl.Common.Int.{pos, negsuc, ◌+ℤ◌, ◌-ℤ◌}
use tturl.Tth2.Streams.{
  Setting, initial_window_size, max_frame_size, max_concurrent_streams, other_setting, PeerSettings,
  apply_settings_values,
}
use tturl.Tth2.Streams.Settings.{IsValid, apply_settings_values-delta}
use tturl.Tth2.Streams.Allocation.{allocate_all}

abbrev defaults : PeerSettings
defaults = record { init_stream_window = 65_535; max_frame = 16_384; max_streams = 4_294_967_295 }

abbrev frame : List Setting
frame =
    max_concurrent_streams 100
    ∷ initial_window_size 32_768
    ∷ other_setting
    ∷ max_frame_size 20_000
    ∷ []

abbrev announced : PeerSettings
announced = record { init_stream_window = 32_768; max_frame = 20_000; max_streams = 100 }

frame_applied : apply_settings_values defaults frame ≡ some (announced, negsuc 32_766)
unfolding apply_settings_values ◌-ℤ◌
frame_applied = refl

apply_settings_values-delta_example :
    IsValid announced × ((pos 65_535 +ℤ negsuc 32_766) ≡ pos 32_768)
apply_settings_values-delta_example =
    apply_settings_values-delta defaults announced frame (negsuc 32_766)
      (omega arith, omega arith, omega arith) frame_applied

-- Near the end of the ID space: two requests fit, three more do not, and one does.
last_ids :
    allocate_all 2_147_483_641 (2 ∷ 3 ∷ 1 ∷ [])
    ≡ (2_147_483_647, 2_147_483_641 ∷ 2_147_483_643 ∷ 2_147_483_645 ∷ [])
unfolding allocate_all
last_ids = refl
