-- ===== src/Timestamps/Video.antt =====
-- The video clock over any run of camera timestamps.
use neolink.Base.{
  ℕ, suc, ◌+◌, ◌*◌, ◌≤◌, ◌<◌, ◌≡◌, refl, ap, arith, List, [], ◌∷◌, length, All, Option, none, some,
}
use neolink.Base.Words.{u64_max, u32, IsU32}
use neolink.Timestamps.{TimestampTracker, new, next_video_us, video_run, max_forward_jump_us}

abbrev IsSeen : Option ℕ → Type 0
IsSeen none = ⊥
IsSeen (some last) = IsU32 last

-- A tracker that has seen a frame, with its words in range and `room` left above the clock.
pub record IsStarted (t : TimestampTracker) (room : ℕ) : Type 0 where
  pub seen : IsSeen t.last_camera_us_32
  pub has_room : t.last_video_us + room ≤ u64_max
  pub backward_low : t.consecutive_backward ≤ 1

next_video-IsStarted :
    (t : TimestampTracker) (c room : ℕ)
    → IsStarted t (5_000_000 + room)
    → IsU32 c
    → IsStarted (next_video_us t c).0 room
unfolding next_video_us
next_video-IsStarted t c room s h = ground arith

next_video_bounds :
    (t : TimestampTracker) (c room : ℕ)
    → IsStarted t (5_000_000 + room)
    → IsU32 c
    → (t.last_video_us < (next_video_us t c).1)
      × ((next_video_us t c).1 ≤ t.last_video_us + 5_000_000)
      × ((next_video_us t c).0.last_video_us ≡ (next_video_us t c).1)
unfolding next_video_us
next_video_bounds t c room s h = ground arith

-- Each value exceeds the one before it, by 5,000,000 at most.
abbrev pub PacedFrom : ℕ → List ℕ → Type 0
PacedFrom p [] = Unit {0}
PacedFrom p (x ∷ xs) = (p < x) × (x ≤ p + 5_000_000) × PacedFrom x xs

started-PacedFrom :
    (t : TimestampTracker) (cs : List ℕ)
    → IsStarted t (5_000_000 * length cs)
    → All IsU32 cs
    → PacedFrom t.last_video_us (video_run t cs)
unfolding video_run
started-PacedFrom t [] s h = tt
started-PacedFrom t (c ∷ cs) s (hc, hcs) =
    let room : ℕ = 5_000_000 * length cs in
    let s' : IsStarted t (5_000_000 + room) = record {
      seen = s.seen;
      has_room = omega arith;
      backward_low = s.backward_low;
    } in
    let (above, below, same) = next_video_bounds t c room s' hc in
    let ih = started-PacedFrom (next_video_us t c).0 cs (next_video-IsStarted t c room s' hc) hcs in
    (above, below, rw same at ih)

length-video_run : (t : TimestampTracker) (cs : List ℕ) → length (video_run t cs) ≡ length cs
unfolding video_run
length-video_run t [] = refl
length-video_run t (c ∷ cs) = ap suc (length-video_run (next_video_us t c).0 cs)

-- The first frame of a stream has PTS 0. Every later one exceeds the one before it, by five seconds
-- at most, whatever the camera's timestamps are, as long as the 64-bit clock has room for a full
-- five seconds a frame. Every frame gets one PTS.
pub video_run-PacedFrom :
    (c : ℕ) (cs : List ℕ)
    → All IsU32 (c ∷ cs)
    → 5_000_000 * length cs ≤ u64_max
    → (pts : List ℕ) × (video_run new (c ∷ cs) ≡ 0 ∷ pts)
      × PacedFrom 0 pts
      × (length pts ≡ length cs)
unfolding new video_run next_video_us
video_run-PacedFrom c cs (hc, hcs) h =
    let first : TimestampTracker = record new { last_camera_us_32 = some c } in
    (
      video_run first cs,
      refl,
      started-PacedFrom first cs
          (record { seen = hc; has_room = omega arith; backward_low = omega arith }) hcs,
      length-video_run first cs,
    )

-- The camera's 32-bit counter after each of a list of frame gaps.
abbrev pub camera_clock : ℕ → List ℕ → List ℕ
camera_clock c [] = []
camera_clock c (d ∷ ds) = u32 (c + d) ∷ camera_clock (u32 (c + d)) ds

-- The time elapsed since the first frame, after each gap.
abbrev pub elapsed : ℕ → List ℕ → List ℕ
elapsed p [] = []
elapsed p (d ∷ ds) = (p + d) ∷ elapsed (p + d) ds

abbrev pub total : List ℕ → ℕ
total [] = 0
total (d ∷ ds) = d + total ds

abbrev pub IsFrameGap : ℕ → Type 0
IsFrameGap d = (0 < d) × (d ≤ max_forward_jump_us)

next_video_gap :
    (t : TimestampTracker) (c d : ℕ)
    → t.last_camera_us_32 ≡ some c
    → IsU32 c
    → IsFrameGap d
    → t.last_video_us + d ≤ u64_max
    → next_video_us t (u32 (c + d)) ≡ (
      record t {
        last_camera_us_32 = some (u32 (c + d));
        last_video_us = t.last_video_us + d;
        consecutive_backward = 0;
      },
      t.last_video_us + d,
    )
unfolding next_video_us
next_video_gap t c d e h g r = ground arith

video_run-elapsed_from :
    (t : TimestampTracker) (c : ℕ) (ds : List ℕ)
    → t.last_camera_us_32 ≡ some c
    → IsU32 c
    → All IsFrameGap ds
    → t.last_video_us + total ds ≤ u64_max
    → video_run t (camera_clock c ds) ≡ elapsed t.last_video_us ds
unfolding video_run
video_run-elapsed_from t c [] e h g r = refl
video_run-elapsed_from t c (d ∷ ds) e h (g, gs) r =
    let t' : TimestampTracker = record t {
      last_camera_us_32 = some (u32 (c + d));
      last_video_us = t.last_video_us + d;
      consecutive_backward = 0;
    } in
    rw (next_video_gap t c d e h g (omega arith)) (
      ap (λ rest. (t.last_video_us + d) ∷ rest)
        (video_run-elapsed_from t' (u32 (c + d)) ds refl (omega arith) gs (omega arith)))

-- While the frames come in order with gaps of at most five seconds, the PTS is exactly the time
-- elapsed since the first frame, however often the camera's 32-bit counter wraps round.
pub video_run-elapsed :
    (c : ℕ) (ds : List ℕ)
    → IsU32 c
    → All IsFrameGap ds
    → total ds ≤ u64_max
    → video_run new (c ∷ camera_clock c ds) ≡ 0 ∷ elapsed 0 ds
unfolding new video_run next_video_us
video_run-elapsed c ds h g r =
    ap (λ rest. 0 ∷ rest)
      (video_run-elapsed_from (record new { last_camera_us_32 = some c }) c ds refl h g
        (omega arith))
