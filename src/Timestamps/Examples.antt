-- ===== src/Timestamps/Examples.antt =====
-- Runs of the tracker, and the theorems at concrete inputs.
use neolink.Base.{ℕ, ◌+◌, ◌≡◌, refl, arith, List, [], ◌∷◌, length, some, false}
use neolink.Base.Words.{u32}
use neolink.Timestamps.{TimestampTracker, new, next_video_us, video_run, audio_run}
use neolink.Timestamps.Video.{
  PacedFrom, video_run-PacedFrom, camera_clock, elapsed, video_run-elapsed,
}
use neolink.Timestamps.Restart.{restart_lem, duplicate_between_late_frames}
use neolink.Timestamps.Audio.{starts, audio_run-starts}

-- The run of the test `two_consecutive_backward_frames_trigger_restart`.
restart_run :
    video_run new (0x5000_0000 ∷ 0x5000_8235 ∷ 0x100 ∷ 0x200 ∷ 0x8435 ∷ [])
    ≡ 0 ∷ 33_333 ∷ 33_334 ∷ 133_334 ∷ 166_667 ∷ []
unfolding video_run next_video_us new
restart_run = refl

video_run-PacedFrom_example :
    (pts : List ℕ) × (video_run new (7 ∷ 5 ∷ 4_000_000_000 ∷ []) ≡ 0 ∷ pts)
    × PacedFrom 0 pts
    × (length pts ≡ 2)
video_run-PacedFrom_example =
    video_run-PacedFrom 7 (5 ∷ 4_000_000_000 ∷ []) (omega arith) (omega arith)

video_run-elapsed_example :
    video_run new (4294967040 ∷ camera_clock 4294967040 (512 ∷ 33_333 ∷ []))
    ≡ 0 ∷ elapsed 0 (512 ∷ 33_333 ∷ [])
video_run-elapsed_example =
    video_run-elapsed 4294967040 (512 ∷ 33_333 ∷ []) (omega arith) (omega arith) (omega arith)

-- A tracker that has run for a while.
abbrev steady : TimestampTracker
steady = record {
  last_camera_us_32 = some 1_033_333;
  last_video_us = 33_333;
  last_audio_us = 0;
  audio_anchored = false;
  consecutive_backward = 0;
}

restart_example :
    let t₁ = (next_video_us steady 100).0 in
    let t₂ = (next_video_us t₁ 200).0 in
    ((next_video_us t₁ 200).1 ≡ 33_333 + 1 + 100_000)
    × (t₂.last_camera_us_32 ≡ some 200)
    × (t₂.consecutive_backward ≡ 0)
    × ((next_video_us t₂ (u32 (200 + 40_000))).1 ≡ 33_333 + 1 + 100_000 + 40_000)
restart_example =
    restart_lem steady 1_033_333 100 200 40_000
      (record { seen = refl; last_fits = omega arith; in_order = refl; has_room = omega arith })
      (omega arith) (omega arith) (omega arith) (omega arith) (omega arith) (omega arith)

duplicate_between_late_frames_example :
    let t₁ = (next_video_us (next_video_us steady 100).0 1_033_333).0 in
    ((next_video_us t₁ 200).0.last_camera_us_32 ≡ some 200)
    × ((next_video_us t₁ 200).1 ≡ 33_333 + 2 + 100_000)
duplicate_between_late_frames_example =
    duplicate_between_late_frames steady 1_033_333 100 200
      (record { seen = refl; last_fits = omega arith; in_order = refl; has_room = omega arith })
      (omega arith) (omega arith) (omega arith) (omega arith)

audio_run-starts_example :
    audio_run steady (20_000 ∷ 0 ∷ 20_000 ∷ []) ≡ starts 33_333 (20_000 ∷ 0 ∷ 20_000 ∷ [])
audio_run-starts_example = audio_run-starts steady (20_000 ∷ 0 ∷ 20_000 ∷ []) (omega arith)
