-- ===== src/Pump/Programs.antt =====
-- `Packer` of src/stream/pump.rs in the MPEG-TS format: a run of frames.
use neolink.Base.{
  ℕ, ◌≡◌, ◌≢◌, refl, sym, ap, subst, ◌∙◌, arith, inl, inr, true, false, List, [], ◌∷◌, Option, some,
  none, length, leb, get_elem?, Bool-cases,
}
use neolink.Base.Words.{Bytes}
use neolink.Media.Model.{
  VideoType, h264, h265, BcMedia, info_v1, info_v2, iframe, pframe, BcMediaAac, BcMediaAdpcm,
}
use neolink.Fanout.{Chunk}
use neolink.Timestamps.{TimestampTracker, next_video_us, next_audio_us}
use neolink.Timestamps
use neolink.Mpegts.{StreamType, TsMuxer}
use neolink.Mpegts
use neolink.Adpcm.{Decoded, decoded, too_short, panicked, decode}
use neolink.Adpcm.Pcm.{decode_pcm}
use neolink.Alaw.{from_pcm}
use neolink.Pump.{Learned, Format, AudioPlan, pass_aac, adpcm_to_alaw, silent, stream_type}
use neolink.Pump.Packer.{
  Packer, ts, TsPacker, new, frame, frame_ts, frame_aac, frame_adpcm, write_adpcm, pack_frames,
  prepend, video_stream, audio_duration, adpcm_duration,
}
use neolink.Pump.Pieces.{
  Piece, transcoded, aac_piece, adpcm_piece, piece_of, Carries, CarriesOption, layout_of, audio_of,
  IsReady, IsNew, Handles, write-Handles,
}

idle-Handles :
    (l : Learned) (k : TsPacker) (tracker : TimestampTracker)
    → IsReady l k
    → Handles l k.muxer none (some (record { kind = ts k; tracker = tracker }, none))
idle-Handles l k tracker r = record {
  next = k;
  tracker = tracker;
  chunk = none;
  given = refl;
  ready = r;
  carried = refl;
}

aac-Handles :
    (l : Learned) (k : TsPacker) (tracker : TimestampTracker) (a : BcMediaAac) (plan : AudioPlan)
    → l.plan ≡ plan
    → IsReady l k
    → Handles l k.muxer (aac_piece plan a.bytes) (some (frame_aac k tracker a plan (audio_of plan)))
unfolding frame_aac
aac-Handles l k tracker a pass_aac e r =
    write-Handles l k 1 0x101 StreamType.aac (next_audio_us tracker (audio_duration a)) false
      a.bytes r (ap (λ plan. get_elem? (layout_of l.video (stream_type plan)) 1) e) (omega arith)
aac-Handles l k tracker a adpcm_to_alaw e r = idle-Handles l k tracker r
aac-Handles l k tracker a silent e r = idle-Handles l k tracker r

decode_calm : (b : Bytes) → decode b ≢ panicked
unfolding decode
decode_calm b = elim (Bool-cases (leb (length b) 4)) [
  | inl e ↦ rw e (λ bad. cc)
  | inr e ↦ let (samples, f, _, _) = decode_pcm b (ground arith) in λ bad. cc
]

transcoded-Handles :
    (l : Learned) (k : TsPacker) (clock : TimestampTracker × ℕ) (d : Decoded)
    → d ≢ panicked
    → l.plan ≡ adpcm_to_alaw
    → IsReady l k
    → Handles l k.muxer (transcoded d) (write_adpcm k 1 clock d)
unfolding write_adpcm
transcoded-Handles l k clock (decoded samples) n e r =
    write-Handles l k 1 0x101 StreamType.pcma clock false (from_pcm samples) r
      (ap (λ plan. get_elem? (layout_of l.video (stream_type plan)) 1) e) (omega arith)
transcoded-Handles l k (tracker, pts_us) too_short n e r = idle-Handles l k tracker r
transcoded-Handles l k clock panicked n e r = elim (n refl) [ ]

adpcm-Handles :
    (l : Learned) (k : TsPacker) (tracker : TimestampTracker) (a : BcMediaAdpcm) (plan : AudioPlan)
    → l.plan ≡ plan
    → IsReady l k
    → Handles l k.muxer (adpcm_piece plan a.bytes) (frame_adpcm k tracker a plan (audio_of plan))
unfolding frame_adpcm
adpcm-Handles l k tracker a adpcm_to_alaw e r =
    transcoded-Handles l k (next_audio_us tracker (adpcm_duration a)) (decode a.bytes)
      (decode_calm a.bytes) e r
adpcm-Handles l k tracker a pass_aac e r = idle-Handles l k tracker r
adpcm-Handles l k tracker a silent e r = idle-Handles l k tracker r

first_entry :
    (v : VideoType) (o : Option StreamType)
    → get_elem? (layout_of v o) 0 ≡ some (0x100, video_stream v)
first_entry v none = refl
first_entry v (some kind) = refl

planned_audio :
    (l : Learned) (k : TsPacker)
    → IsReady l k
    → ◌≡◌ {A = AudioPlan × Option ℕ} (l.plan, audio_of l.plan) (k.plan, k.audio)
planned_audio l k r = λ i. (sym r.planned i, sym r.audio i)

frame_ts-Handles :
    (l : Learned) (k : TsPacker) (tracker : TimestampTracker) (f : BcMedia)
    → IsReady l k
    → Handles l k.muxer (piece_of l f) (frame_ts k tracker f)
unfolding frame_ts
frame_ts-Handles l k tracker (info_v1 i) r = idle-Handles l k tracker r
frame_ts-Handles l k tracker (info_v2 i) r = idle-Handles l k tracker r
frame_ts-Handles l k tracker (iframe i) r =
    write-Handles l k k.video 0x100 (video_stream l.video) (next_video_us tracker i.microseconds)
      true i.bytes r (rw r.video (first_entry l.video (stream_type l.plan))) (omega arith)
frame_ts-Handles l k tracker (pframe i) r =
    write-Handles l k k.video 0x100 (video_stream l.video) (next_video_us tracker i.microseconds)
      false i.bytes r (rw r.video (first_entry l.video (stream_type l.plan))) (omega arith)
frame_ts-Handles l k tracker (BcMedia.aac a) r =
    subst
      (λ (x : AudioPlan × Option ℕ).
        Handles l k.muxer (aac_piece l.plan a.bytes) (some (frame_aac k tracker a x.0 x.1)))
      (planned_audio l k r) (aac-Handles l k tracker a l.plan refl r)
frame_ts-Handles l k tracker (BcMedia.adpcm a) r =
    subst
      (λ (x : AudioPlan × Option ℕ).
        Handles l k.muxer (adpcm_piece l.plan a.bytes) (frame_adpcm k tracker a x.0 x.1))
      (planned_audio l k r) (adpcm-Handles l k tracker a l.plan refl r)

abbrev add : Option Piece → List Piece → List Piece
add none xs = xs
add (some x) xs = x ∷ xs

-- What a run of frames is to become.
abbrev pub pieces : Learned → List BcMedia → List Piece
pieces l [] = []
pieces l (f ∷ fs) = add (piece_of l f) (pieces l fs)

-- One chunk for each piece, in order, each from the muxer that the one before has left.
abbrev pub CarriesFrom : Learned → TsMuxer → List Piece → List Chunk → Type 0
CarriesFrom l m [] [] = Unit {0}
CarriesFrom l m (x ∷ xs) (c ∷ cs) = (m' : TsMuxer) × Carries l m x c m' × CarriesFrom l m' xs cs
CarriesFrom l m _ _ = ⊥

-- One chunk for each piece, in order, from a new muxer on.
pub record CarriesAll (l : Learned) (xs : List Piece) (cs : List Chunk) : Type 0 where
  pub muxer : TsMuxer
  pub fresh : IsNew l muxer
  pub carried : CarriesFrom l muxer xs cs

Run : Learned → TsMuxer → List BcMedia → Packer → Type 0
Run l m frames start =
    (p : Packer) × (chunks : List Chunk) × (pack_frames start frames ≡ some (p, chunks))
    × CarriesFrom l m (pieces l frames) chunks

pack_frames-prepend :
    (p q : Packer) (chunk : Option Chunk) (f : BcMedia) (fs : List BcMedia)
    → frame p f ≡ some (q, chunk)
    → pack_frames p (f ∷ fs) ≡ prepend chunk (pack_frames q fs)
unfolding pack_frames
pack_frames-prepend p q chunk f fs e = rw e refl

step-Run :
    (l : Learned) (m m' : TsMuxer) (start q : Packer) (x : Option Piece) (chunk : Option Chunk)
    (f : BcMedia) (fs : List BcMedia)
    → piece_of l f ≡ x
    → pack_frames start (f ∷ fs) ≡ prepend chunk (pack_frames q fs)
    → CarriesOption l m x chunk m'
    → Run l m' fs q
    → Run l m (f ∷ fs) start
unfolding Run
step-Run l m m' start q none none f fs e g c (p, chunks, h, k) = (
  p,
  chunks,
  g ∙ ap (prepend none) h,
  rw e (subst (λ n. CarriesFrom l n (pieces l fs) chunks) c k),
)
step-Run l m m' start q (some x) (some c') f fs e g c (p, chunks, h, k) =
    (p, c' ∷ chunks, g ∙ ap (prepend (some c')) h, rw e (m', c, k))
step-Run l m m' start q none (some c') f fs e g c r = elim c [ ]
step-Run l m m' start q (some x) none f fs e g c r = elim c [ ]

pack_frames-Run :
    (l : Learned) (k : TsPacker) (tracker : TimestampTracker) (frames : List BcMedia)
    → IsReady l k
    → Run l k.muxer frames (record { kind = ts k; tracker = tracker })
unfolding Run pack_frames frame
pack_frames-Run l k tracker [] r = (_, [], refl, tt)
pack_frames-Run l k tracker (f ∷ fs) r =
    let h = frame_ts-Handles l k tracker f r in
    step-Run l k.muxer h.next.muxer (record { kind = ts k; tracker = tracker }) _ _ h.chunk f fs
      refl (pack_frames-prepend (record { kind = ts k; tracker = tracker }) _ h.chunk f fs h.given)
      h.carried (pack_frames-Run l h.next h.tracker fs h.ready)

abbrev Starts : Learned → Type 0
Starts l =
    (k : TsPacker) × (new l Format.mpeg_ts
      ≡ some (record { kind = ts k; tracker = Timestamps.new }))
    × IsReady l k
    × IsNew l k.muxer

new-Starts :
    (v : VideoType) (plan : AudioPlan) (backlog : List BcMedia)
    → Starts (record { video = v; plan = plan; backlog = backlog })
unfolding new Mpegts.new Mpegts.track Mpegts.declare Mpegts.is_video Mpegts.id
new-Starts h264 pass_aac backlog = (
  _,
  refl,
  record { laid = refl; video = refl; audio = refl; planned = refl },
  record { tracks = refl; pat_unsent = refl; pmt_unsent = refl },
)
new-Starts h264 adpcm_to_alaw backlog = (
  _,
  refl,
  record { laid = refl; video = refl; audio = refl; planned = refl },
  record { tracks = refl; pat_unsent = refl; pmt_unsent = refl },
)
new-Starts h264 silent backlog = (
  _,
  refl,
  record { laid = refl; video = refl; audio = refl; planned = refl },
  record { tracks = refl; pat_unsent = refl; pmt_unsent = refl },
)
new-Starts h265 pass_aac backlog = (
  _,
  refl,
  record { laid = refl; video = refl; audio = refl; planned = refl },
  record { tracks = refl; pat_unsent = refl; pmt_unsent = refl },
)
new-Starts h265 adpcm_to_alaw backlog = (
  _,
  refl,
  record { laid = refl; video = refl; audio = refl; planned = refl },
  record { tracks = refl; pat_unsent = refl; pmt_unsent = refl },
)
new-Starts h265 silent backlog = (
  _,
  refl,
  record { laid = refl; video = refl; audio = refl; planned = refl },
  record { tracks = refl; pat_unsent = refl; pmt_unsent = refl },
)

-- In the MPEG-TS format the packer always starts, and no run of frames makes it panic. The frames
-- that have a payload for a published track become one chunk each, in order, and no other frame
-- becomes one: each chunk is a resync point exactly for a keyframe. Video is published under PID
-- 0x100 and audio under 0x101. A reader of the PID of its kind gets from the chunk, behind the
-- tables or without them, the payload in PES packets with the time of the chunk; the continuity
-- counters of each PID, the two of the tables included, start at 0 and go on from chunk to chunk,
-- modulo 16. Video is passed on as it came, AAC where the plan is to pass it, and ADPCM as A-law
-- where the plan is that.
pub ts_run :
    (l : Learned) (frames : List BcMedia)
    → (start p : Packer) × (chunks : List Chunk) × (new l Format.mpeg_ts ≡ some start)
      × (pack_frames start frames ≡ some (p, chunks))
      × CarriesAll l (pieces l frames) chunks
unfolding Run
ts_run l frames =
    let (k, e, r, fresh) = new-Starts l.video l.plan l.backlog in
    let (p, chunks, g, c) = pack_frames-Run l k Timestamps.new frames r in
    (_, p, chunks, e, g, record { muxer = k.muxer; fresh = fresh; carried = c })
