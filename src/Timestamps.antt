-- ===== src/Timestamps.antt =====
-- src/common/timestamps.rs: the 32-bit microsecond clock of the camera becomes a 64-bit PTS.
-- A method on `&mut self` returns the new tracker with its result; the log calls are left out.
pub mod Video
pub mod Restart
pub mod Audio
mod Examples
use neolink.Base.{
  ℕ, ◌+◌, max, Bool, true, false, Option, none, some, ltb, leb, ◌==◌, if◌then◌else◌, List, [], ◌∷◌,
}
use neolink.Base.Words.{saturating_add_u64, wrapping_sub_u32}

abbrev pub backward_threshold : ℕ
backward_threshold = 0x8000_0000

abbrev pub max_forward_jump_us : ℕ
max_forward_jump_us = 5_000_000

abbrev pub restart_advance_us : ℕ
restart_advance_us = 100_000

abbrev pub tie_breaker_us : ℕ
tie_breaker_us = 1

abbrev pub restart_detect_count : ℕ
restart_detect_count = 2

pub record TimestampTracker : Type 0 where
  pub last_camera_us_32 : Option ℕ
  pub last_video_us : ℕ
  pub last_audio_us : ℕ
  pub audio_anchored : Bool
  pub consecutive_backward : ℕ

pub new : TimestampTracker
new = record {
  last_camera_us_32 = none;
  last_video_us = 0;
  last_audio_us = 0;
  audio_anchored = false;
  consecutive_backward = 0;
}

-- `self.last_video_us = self.last_video_us.saturating_add(n); return self.last_video_us;`
abbrev advance_video : TimestampTracker → ℕ → TimestampTracker × ℕ
advance_video t n =
    let us = saturating_add_u64 t.last_video_us n in (record t { last_video_us = us }, us)

-- The branch of a frame that lies behind the last good timestamp. The counter is at most 1 here,
-- so its `u32` increment is exact.
on_backward : TimestampTracker → ℕ → TimestampTracker × ℕ
on_backward t camera_us_32 =
    let t' = record t { consecutive_backward = t.consecutive_backward + 1 } in
    if leb restart_detect_count t'.consecutive_backward
    then advance_video
        (record t' { last_camera_us_32 = some camera_us_32; consecutive_backward = 0 })
        restart_advance_us
    else advance_video t' tie_breaker_us

on_forward : TimestampTracker → ℕ → ℕ → TimestampTracker × ℕ
on_forward t camera_us_32 fwd =
    let advance = if leb fwd max_forward_jump_us then fwd else restart_advance_us in
    advance_video (record t { consecutive_backward = 0; last_camera_us_32 = some camera_us_32 })
      advance

pub next_video_us : TimestampTracker → ℕ → TimestampTracker × ℕ
unfolding on_backward on_forward
next_video_us t camera_us_32 = elim t.last_camera_us_32 [
  | none ↦ (record t { last_camera_us_32 = some camera_us_32 }, 0)
  | some last_32 ↦
      let fwd = wrapping_sub_u32 camera_us_32 last_32 in
      if fwd == 0
      then advance_video t tie_breaker_us
      else if leb backward_threshold fwd
      then on_backward t camera_us_32
      else on_forward t camera_us_32 fwd
]

pub next_audio_us : TimestampTracker → ℕ → TimestampTracker × ℕ
next_audio_us t duration_us =
    let t' =
      if t.audio_anchored
      then t
      else record t { last_audio_us = t.last_video_us; audio_anchored = true } in
    let ts = t'.last_audio_us in
    let advance = max duration_us tie_breaker_us in
    (record t' { last_audio_us = saturating_add_u64 t'.last_audio_us advance }, ts)

-- The PTS values that a run of camera timestamps is given.
unfoldable pub video_run : TimestampTracker → List ℕ → List ℕ
video_run t [] = []
video_run t (c ∷ cs) = let (t', pts) = next_video_us t c in pts ∷ video_run t' cs

pub audio_run : TimestampTracker → List ℕ → List ℕ
audio_run t [] = []
audio_run t (d ∷ ds) = let (t', pts) = next_audio_us t d in pts ∷ audio_run t' ds
