-- ===== src/Timestamps/Audio.antt =====
-- The audio clock over any run of frame durations.
use neolink.Base.{ℕ, ◌+◌, max, ◌≤◌, ◌≡◌, refl, ap, ◌∙◌, arith, List, [], ◌∷◌, if◌then◌else◌}
use neolink.Base.Words.{u64_max}
use neolink.Timestamps.{TimestampTracker, next_audio_us, audio_run}

-- The start of each frame, the first at `p`; a frame of no duration takes a microsecond.
abbrev pub starts : ℕ → List ℕ → List ℕ
starts p [] = []
starts p (d ∷ ds) = p ∷ starts (p + max d 1) ds

abbrev pub duration : List ℕ → ℕ
duration [] = 0
duration (d ∷ ds) = max d 1 + duration ds

-- The clock that the next audio frame reads: the video's until audio is anchored, then its own.
abbrev pub audio_clock : TimestampTracker → ℕ
audio_clock t = if t.audio_anchored then t.last_audio_us else t.last_video_us

next_audio_lem :
    (t : TimestampTracker) (d : ℕ)
    → audio_clock t + max d 1 ≤ u64_max
    → ((next_audio_us t d).1 ≡ audio_clock t)
      × (audio_clock (next_audio_us t d).0 ≡ audio_clock t + max d 1)
unfolding next_audio_us
next_audio_lem t d h = ground arith

-- The audio frames follow one another without a gap or an overlap: the first starts at the video
-- clock (or, once audio runs, at the end of the frame before), each next one at the end of the
-- frame before it, where a frame of no duration counts for a microsecond, as long as the 64-bit
-- clock has room for them.
pub audio_run-starts :
    (t : TimestampTracker) (ds : List ℕ)
    → audio_clock t + duration ds ≤ u64_max
    → audio_run t ds ≡ starts (audio_clock t) ds
unfolding audio_run
audio_run-starts t [] h = refl
audio_run-starts t (d ∷ ds) h =
    let (now, next) = next_audio_lem t d (omega arith) in
    let ih = audio_run-starts (next_audio_us t d).0 ds (omega arith) in
    rw now (ap (λ r. audio_clock t ∷ r) (ih ∙ ap (λ p. starts p ds) next))
