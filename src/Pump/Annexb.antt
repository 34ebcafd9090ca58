-- ===== src/Pump/Annexb.antt =====
-- `Packer` of src/stream/pump.rs in the Annex-B format: the bare video.
use neolink.Base.{
  ℕ, ◌≡◌, refl, sym, ap, ◌∙◌, Bool, true, false, List, [], ◌∷◌, ◌++◌, some, none, map, All,
}
use neolink.Base.Words.{Bytes}
use neolink.Media.Model.{BcMedia, info_v1, info_v2, iframe, pframe, aac, adpcm}
use neolink.Fanout.{Chunk}
use neolink.Timestamps.{TimestampTracker, next_video_us, video_run}
use neolink.Timestamps
use neolink.Pump.{Learned, Format}
use neolink.Pump.Packer.{Packer, annexb, new, frame_annexb, frame, chunk_of, pack_frames}

-- The bytes of the frames of video, in order.
abbrev pub elementary : List BcMedia → Bytes
elementary [] = []
elementary (iframe i ∷ fs) = i.bytes ++ elementary fs
elementary (pframe i ∷ fs) = i.bytes ++ elementary fs
elementary (_ ∷ fs) = elementary fs

abbrev pub stamps : List BcMedia → List ℕ
stamps [] = []
stamps (iframe i ∷ fs) = i.microseconds ∷ stamps fs
stamps (pframe i ∷ fs) = i.microseconds ∷ stamps fs
stamps (_ ∷ fs) = stamps fs

abbrev pub keys : List BcMedia → List Bool
keys [] = []
keys (iframe i ∷ fs) = true ∷ keys fs
keys (pframe i ∷ fs) = false ∷ keys fs
keys (_ ∷ fs) = keys fs

abbrev pub joined : List Chunk → Bytes
joined [] = []
joined (c ∷ cs) = c.bytes ++ joined cs

abbrev IsFull : Bytes → Type 0
IsFull [] = ⊥
IsFull (b ∷ bs) = Unit {0}

-- A frame of video is not empty.
abbrev pub HasPayload : BcMedia → Type 0
HasPayload (iframe i) = IsFull i.bytes
HasPayload (pframe i) = IsFull i.bytes
HasPayload _ = Unit {0}

-- What the chunks of a run are, for a clock that has run so far.
pub record IsElementary (tracker : TimestampTracker) (frames : List BcMedia) (chunks : List Chunk)
    : Type 0 where
  pub bytes : joined chunks ≡ elementary frames
  pub times : map (λ (c : Chunk). c.pts_us) chunks ≡ video_run tracker (stamps frames)
  pub resyncs : map (λ (c : Chunk). c.resync_point) chunks ≡ keys frames

abbrev Packs : TimestampTracker → List BcMedia → Type 0
Packs tracker frames =
    (p : Packer) × (chunks : List Chunk) × (pack_frames
        (record { kind = annexb; tracker = tracker }) frames
      ≡ some (p, chunks))
    × IsElementary tracker frames chunks

video-Packs :
    (tracker : TimestampTracker) (f : BcMedia) (us : ℕ) (payload : Bytes) (resync : Bool)
    (fs : List BcMedia)
    → frame (record { kind = annexb; tracker = tracker }) f
      ≡ some (
        record { kind = annexb; tracker = (next_video_us tracker us).0 },
        chunk_of payload resync (next_video_us tracker us).1,
      )
    → elementary (f ∷ fs) ≡ payload ++ elementary fs
    → stamps (f ∷ fs) ≡ us ∷ stamps fs
    → keys (f ∷ fs) ≡ resync ∷ keys fs
    → IsFull payload
    → Packs (next_video_us tracker us).0 fs
    → Packs tracker (f ∷ fs)
unfolding pack_frames video_run
video-Packs tracker f us [] resync fs e a b c h k = elim h [ ]
video-Packs tracker f us (x ∷ xs) resync fs e a b c h (p, chunks, g, k) = (
  p,
  record { bytes = x ∷ xs; resync_point = resync; pts_us = (next_video_us tracker us).1 } ∷ chunks,
  rw (e, g) refl,
  record {
    bytes = ap (λ l. x ∷ xs ++ l) k.bytes ∙ sym a;
    times = ap (λ l. (next_video_us tracker us).1 ∷ l) k.times ∙ ap (video_run tracker) (sym b);
    resyncs = ap (λ l. resync ∷ l) k.resyncs ∙ sym c;
  },
)

other-Packs :
    (tracker : TimestampTracker) (f : BcMedia) (fs : List BcMedia)
    → frame (record { kind = annexb; tracker = tracker }) f
      ≡ some (record { kind = annexb; tracker = tracker }, none)
    → elementary (f ∷ fs) ≡ elementary fs
    → stamps (f ∷ fs) ≡ stamps fs
    → keys (f ∷ fs) ≡ keys fs
    → Packs tracker fs
    → Packs tracker (f ∷ fs)
unfolding pack_frames
other-Packs tracker f fs e a b c (p, chunks, g, k) = (
  p,
  chunks,
  rw (e, g) refl,
  record {
    bytes = k.bytes ∙ sym a;
    times = k.times ∙ ap (video_run tracker) (sym b);
    resyncs = k.resyncs ∙ sym c;
  },
)

pack_frames-Packs :
    (tracker : TimestampTracker) (frames : List BcMedia)
    → All HasPayload frames
    → Packs tracker frames
unfolding pack_frames frame frame_annexb video_run
pack_frames-Packs tracker [] h =
    (_, [], refl, record { bytes = refl; times = refl; resyncs = refl })
pack_frames-Packs tracker (iframe i ∷ fs) (h, hs) =
    video-Packs tracker (iframe i) i.microseconds i.bytes true fs refl refl refl refl h
      (pack_frames-Packs (next_video_us tracker i.microseconds).0 fs hs)
pack_frames-Packs tracker (pframe i ∷ fs) (h, hs) =
    video-Packs tracker (pframe i) i.microseconds i.bytes false fs refl refl refl refl h
      (pack_frames-Packs (next_video_us tracker i.microseconds).0 fs hs)
pack_frames-Packs tracker (info_v1 i ∷ fs) (h, hs) =
    other-Packs tracker (info_v1 i) fs refl refl refl refl (pack_frames-Packs tracker fs hs)
pack_frames-Packs tracker (info_v2 i ∷ fs) (h, hs) =
    other-Packs tracker (info_v2 i) fs refl refl refl refl (pack_frames-Packs tracker fs hs)
pack_frames-Packs tracker (aac a ∷ fs) (h, hs) =
    other-Packs tracker (aac a) fs refl refl refl refl (pack_frames-Packs tracker fs hs)
pack_frames-Packs tracker (adpcm a ∷ fs) (h, hs) =
    other-Packs tracker (adpcm a) fs refl refl refl refl (pack_frames-Packs tracker fs hs)

-- In the Annex-B format, frames of video that are not empty become one chunk each, and no other
-- frame becomes one: the chunks hold the bytes of the video as they came, the resync points are
-- the keyframes, and the times are those of the clock of the camera.
pub annexb_run :
    (l : Learned) (frames : List BcMedia)
    → All HasPayload frames
    → (start p : Packer) × (chunks : List Chunk) × (new l Format.annexb ≡ some start)
      × (pack_frames start frames ≡ some (p, chunks))
      × IsElementary Timestamps.new frames chunks
unfolding new
annexb_run l frames h =
    let (p, chunks, e, k) = pack_frames-Packs Timestamps.new frames h in (_, p, chunks, refl, e, k)
