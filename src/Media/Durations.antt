-- ===== src/Media/Durations.antt =====
-- How long the audio packets play: the 32-bit products do not wrap.
use neolink.Base.{ℕ, ◌+◌, ◌-◌, ◌*◌, ◌/◌, ◌≡◌, ◌≤◌, ap, arith, length, some, bit_and, get_or}
use neolink.Base.Words.{u32}
use neolink.Base.Bits.{bit_and_three}
use mathlib.Core.Option
use neolink.Media.Model.{
  BcMediaAac, BcMediaAdpcm, sample_frequency, samples_duration, aac_duration, block_size,
  adpcm_duration,
}

-- Eight thousand samples of two to a byte are a second.
adpcm_duration_lem :
    (a : BcMediaAdpcm)
    → 4 ≤ length a.bytes
    → length a.bytes ≤ 2151
    → adpcm_duration a ≡ some (250 * (length a.bytes - 4))
unfolding adpcm_duration samples_duration block_size
adpcm_duration_lem a h k = ap some (omega arith)

-- One to four frames of 1024 samples, at each frequency of the table.
frames_duration-bounds :
    (frames i d : ℕ)
    → 1 ≤ frames
    → frames ≤ 4
    → Option.map (samples_duration (u32 (frames * 1024))) (sample_frequency i) ≡ some d
    → (10666 ≤ d) × (d ≤ 557278)
unfolding sample_frequency samples_duration
frames_duration-bounds frames i d h k e = ground arith

-- An AAC packet whose duration is known plays from 10.666 to 557.278 milliseconds.
aac_duration-bounds :
    (a : BcMediaAac) (d : ℕ) → aac_duration a ≡ some d → (10666 ≤ d) × (d ≤ 557278)
unfolding aac_duration
aac_duration-bounds a d e =
    let b = bit_and_three (get_or a.bytes 6 0) in
    let frames = bit_and (get_or a.bytes 6 0) 3 + 1 in
    let i = bit_and (get_or a.bytes 2 0) 60 / 4 in
    let bound = frames_duration-bounds frames i d (omega arith) (omega (arith, b)) in ground arith
