-- ===== src/Timestamps/Restart.antt =====
-- Reordered frames and camera restarts.
use neolink.Base.{ℕ, ◌+◌, ◌≤◌, ◌<◌, ◌≡◌, arith, some}
use neolink.Base.Words.{u64_max, u32, IsU32, wrapping_sub_u32}
use neolink.Timestamps.{TimestampTracker, next_video_us, backward_threshold, restart_advance_us}

-- A timestamp that lies behind the baseline by up to half of the counter's range.
abbrev pub IsBehind : ℕ → ℕ → Type 0
IsBehind last c = backward_threshold ≤ wrapping_sub_u32 c last

-- The trackers that have taken a frame at `last` in order.
pub record IsSteady (t : TimestampTracker) (last : ℕ) : Type 0 where
  pub seen : t.last_camera_us_32 ≡ some last
  pub last_fits : IsU32 last
  pub in_order : t.consecutive_backward ≡ 0
  pub has_room : t.last_video_us + 10_000_000 ≤ u64_max

-- One late frame is given the next microsecond, and leaves the baseline alone: the next frame in
-- order is `d` after the last good one, and its PTS is so too, but for that microsecond.
late_frame_lem :
    (t : TimestampTracker) (last late d : ℕ)
    → IsSteady t last
    → IsBehind last late
    → IsU32 late
    → 0 < d
    → d ≤ 5_000_000
    → ((next_video_us t late).1 ≡ t.last_video_us + 1)
      × ((next_video_us (next_video_us t late).0 (u32 (last + d))).1 ≡ t.last_video_us + 1 + d)
unfolding next_video_us
late_frame_lem t last late d s b h g k = ground arith

-- Two frames in a row that lie behind the baseline are a restart of the camera: the second moves
-- the PTS by 100 ms, the new timestamp is the baseline, and a frame `d` later is `d` later.
pub restart_lem :
    (t : TimestampTracker) (last a b d : ℕ)
    → IsSteady t last
    → IsBehind last a
    → IsBehind last b
    → IsU32 a
    → IsU32 b
    → 0 < d
    → d ≤ 5_000_000
    → let t₁ = (next_video_us t a).0 in
      let t₂ = (next_video_us t₁ b).0 in
      ((next_video_us t₁ b).1 ≡ t.last_video_us + 1 + restart_advance_us)
      × (t₂.last_camera_us_32 ≡ some b)
      × (t₂.consecutive_backward ≡ 0)
      × ((next_video_us t₂ (u32 (b + d))).1 ≡ t.last_video_us + 1 + restart_advance_us + d)
unfolding next_video_us
restart_lem t last a b d s ba bb ha hb g k = ground arith

-- A repeated timestamp between two late frames does not end the row: the second late frame is
-- taken for a restart, although the two are not consecutive.
pub duplicate_between_late_frames :
    (t : TimestampTracker) (last a b : ℕ)
    → IsSteady t last
    → IsBehind last a
    → IsBehind last b
    → IsU32 a
    → IsU32 b
    → let t₁ = (next_video_us (next_video_us t a).0 last).0 in
      ((next_video_us t₁ b).0.last_camera_us_32 ≡ some b)
      × ((next_video_us t₁ b).1 ≡ t.last_video_us + 2 + restart_advance_us)
unfolding next_video_us
duplicate_between_late_frames t last a b s ba bb ha hb = ground arith
