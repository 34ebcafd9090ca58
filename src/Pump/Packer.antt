-- ===== src/Pump/Packer.antt =====
-- `Packer` of src/stream/pump.rs. The staging buffer is empty between two calls, so it is no part of
-- the state.
use neolink.Base.{ℕ, ◌*◌, ◌/◌, Bool, true, false, Option, none, some, [], ◌∷◌, List}
use neolink.Base.Words.{Bytes, u32}
use neolink.Fanout.{Chunk}
use neolink.Media.Model.{
  VideoType, BcMedia, info_v1, info_v2, iframe, pframe, BcMediaAac, BcMediaAdpcm, aac_duration,
  block_size,
}
use neolink.Media.Model
use neolink.Mpegts.{StreamType, TsMuxer}
use neolink.Mpegts
use neolink.Mpegts.Frames.{write_frame}
use neolink.Timestamps.{TimestampTracker, next_video_us, next_audio_us}
use neolink.Timestamps
use neolink.Adpcm.{Decoded, decoded, too_short, panicked, decode}
use neolink.Alaw.{from_pcm}
use neolink.Pump.{AudioPlan, pass_aac, adpcm_to_alaw, stream_type, Format, Learned}

pub record TsPacker : Type 0 where
  pub muxer : TsMuxer
  pub video : ℕ
  pub audio : Option ℕ
  pub plan : AudioPlan

pub data PackerKind : Type 0 where
  ts : TsPacker → PackerKind
  annexb : PackerKind

pub record Packer : Type 0 where
  pub kind : PackerKind
  pub tracker : TimestampTracker

abbrev pub video_stream : VideoType → StreamType
video_stream VideoType.h264 = StreamType.h264
video_stream VideoType.h265 = StreamType.h265

abbrev pub audio_list : Option StreamType → List StreamType
audio_list none = []
audio_list (some t) = t ∷ []

abbrev pub audio_track : TsMuxer → Option StreamType → Option ℕ
audio_track muxer none = none
audio_track muxer (some t) = Mpegts.track muxer t

-- None where the muxer has lost its video track.
abbrev pub with_video : TsMuxer → AudioPlan → Option ℕ → Option Packer
with_video muxer plan none = none
with_video muxer plan (some video) = some (record {
  kind = ts (record {
    muxer = muxer;
    video = video;
    audio = audio_track muxer (stream_type plan);
    plan = plan;
  });
  tracker = Timestamps.new;
})

unfoldable pub new : Learned → Format → Option Packer
new l Format.annexb = some (record { kind = annexb; tracker = Timestamps.new })
new l Format.mpeg_ts =
    let video_type = video_stream l.video in
    let muxer = Mpegts.new (video_type ∷ audio_list (stream_type l.plan)) in
    with_video muxer l.plan (Mpegts.track muxer video_type)

abbrev pub unwrap_or : Option ℕ → ℕ → ℕ
unwrap_or none n = n
unwrap_or (some m) n = m

unfoldable pub audio_duration : BcMediaAac → ℕ
audio_duration a = unwrap_or (aac_duration a) (1_024 * 1_000_000 / 16_000)

abbrev pub adpcm_sample_rate : ℕ
adpcm_sample_rate = 8_000

unfoldable pub adpcm_duration : BcMediaAdpcm → ℕ
adpcm_duration a =
    unwrap_or (Model.adpcm_duration a)
      (u32 (u32 (block_size a * 2) * 1_000_000) / adpcm_sample_rate)

-- No chunk where the staging buffer is empty.
abbrev pub chunk_of : Bytes → Bool → ℕ → Option Chunk
chunk_of [] resync pts_us = none
chunk_of (b ∷ bs) resync pts_us =
    some (record { bytes = b ∷ bs; resync_point = resync; pts_us = pts_us })

unfoldable pub frame_annexb : TimestampTracker → BcMedia → Packer × Option Chunk
frame_annexb tracker (iframe i) =
    let clock = next_video_us tracker i.microseconds in
    (record { kind = annexb; tracker = clock.0 }, chunk_of i.bytes true clock.1)
frame_annexb tracker (pframe i) =
    let clock = next_video_us tracker i.microseconds in
    (record { kind = annexb; tracker = clock.0 }, chunk_of i.bytes false clock.1)
frame_annexb tracker _ = (record { kind = annexb; tracker = tracker }, none)

-- The payload is written to a track, at the time that the clock has given.
unfoldable pub write : TsPacker → ℕ → TimestampTracker × ℕ → Bool → Bytes → Packer × Option Chunk
write k track (tracker, pts_us) resync payload =
    let written = write_frame track pts_us resync payload k.muxer in
    (
      record { kind = ts (record k { muxer = written.0 }); tracker = tracker },
      chunk_of written.1 resync pts_us,
    )

-- None for a panic of the decoder.
unfoldable pub write_adpcm :
    TsPacker → ℕ → TimestampTracker × ℕ → Decoded → Option (Packer × Option Chunk)
write_adpcm k track clock (decoded samples) = some (write k track clock false (from_pcm samples))
write_adpcm k track (tracker, pts_us) too_short =
    some (record { kind = ts k; tracker = tracker }, none)
write_adpcm k track clock panicked = none

unfoldable pub frame_aac :
    TsPacker → TimestampTracker → BcMediaAac → AudioPlan → Option ℕ → Packer × Option Chunk
unfolding audio_duration
frame_aac k tracker a pass_aac (some track) =
    write k track (next_audio_us tracker (audio_duration a)) false a.bytes
frame_aac k tracker a _ _ = (record { kind = ts k; tracker = tracker }, none)

unfoldable pub frame_adpcm :
    TsPacker
    → TimestampTracker
    → BcMediaAdpcm
    → AudioPlan
    → Option ℕ
    → Option (Packer × Option Chunk)
unfolding adpcm_duration
frame_adpcm k tracker a adpcm_to_alaw (some track) =
    write_adpcm k track (next_audio_us tracker (adpcm_duration a)) (decode a.bytes)
frame_adpcm k tracker a _ _ = some (record { kind = ts k; tracker = tracker }, none)

unfoldable pub frame_ts : TsPacker → TimestampTracker → BcMedia → Option (Packer × Option Chunk)
frame_ts k tracker (iframe i) =
    some (write k k.video (next_video_us tracker i.microseconds) true i.bytes)
frame_ts k tracker (pframe i) =
    some (write k k.video (next_video_us tracker i.microseconds) false i.bytes)
frame_ts k tracker (BcMedia.aac a) = some (frame_aac k tracker a k.plan k.audio)
frame_ts k tracker (BcMedia.adpcm a) = frame_adpcm k tracker a k.plan k.audio
frame_ts k tracker (info_v1 i) = some (record { kind = ts k; tracker = tracker }, none)
frame_ts k tracker (info_v2 i) = some (record { kind = ts k; tracker = tracker }, none)

unfoldable pub frame : Packer → BcMedia → Option (Packer × Option Chunk)
frame p media = elim p.kind [
  | annexb ↦ some (frame_annexb p.tracker media)
  | ts k ↦ frame_ts k p.tracker media
]

abbrev pub prepend : Option Chunk → Option (Packer × List Chunk) → Option (Packer × List Chunk)
prepend chunk none = none
prepend none (some r) = some r
prepend (some chunk) (some (p, chunks)) = some (p, chunk ∷ chunks)

abbrev pub and_then :
    Option (Packer × Option Chunk)
    → (Packer → Option (Packer × List Chunk))
    → Option (Packer × List Chunk)
and_then none rest = none
and_then (some (p, chunk)) rest = prepend chunk (rest p)

-- What a run of frames hands to the fanout.
unfoldable pub pack_frames : Packer → List BcMedia → Option (Packer × List Chunk)
pack_frames p [] = some (p, [])
pack_frames p (f ∷ fs) = and_then (frame p f) (λ q. pack_frames q fs)
