-- ===== src/Pump/Pieces.antt =====
-- What a frame is to become in the MPEG-TS format of src/stream/pump.rs, and that a payload written
-- to a track becomes it.
use neolink.Base.{
  ℕ, ◌≡◌, ◌<◌, ◌≤◌, refl, sym, ap, ◌∙◌, arith, Bool, true, false, List, [], ◌∷◌, ◌++◌, Option, some,
  none, length, get_elem?, length-map, map, All, subst,
}
use neolink.Base.Words.{Bytes}
use neolink.Media.Model.{VideoType, BcMedia, iframe, pframe}
use neolink.Fanout.{Chunk}
use neolink.Timestamps.{TimestampTracker}
use neolink.Mpegts.{StreamType, Track, TsMuxer}
use neolink.Mpegts.Frames.{write_frame, clock_of, pes_header}
use neolink.Mpegts.Pes.{IsFramed, write_frame-IsFramed}
use neolink.Mpegts.Psi.{HasPid}
use neolink.Mpegts.Emit.{demux_nothing}
use neolink.Adpcm.{Decoded, decoded, decode}
use neolink.Alaw.{from_pcm}
use neolink.Pump.{Learned, AudioPlan, pass_aac, adpcm_to_alaw, silent, stream_type}
use neolink.Pump.Packer.{Packer, ts, TsPacker, write, chunk_of, video_stream}
use neolink.Pump.Tracks.{entry, entries, get_elem?-map, entries-write_frame}

-- What a frame is to become: a payload for a track.
pub record Piece : Type 0 where
  pub kind : StreamType
  pub resync : Bool
  pub payload : Bytes

-- A frame without a payload becomes nothing.
abbrev pub piece : StreamType → Bool → Bytes → Option Piece
piece kind resync [] = none
piece kind resync (b ∷ bs) = some (record { kind = kind; resync = resync; payload = b ∷ bs })

abbrev pub transcoded : Decoded → Option Piece
transcoded (decoded samples) = piece StreamType.pcma false (from_pcm samples)
transcoded _ = none

abbrev pub aac_piece : AudioPlan → Bytes → Option Piece
aac_piece pass_aac bytes = piece StreamType.aac false bytes
aac_piece _ bytes = none

abbrev pub adpcm_piece : AudioPlan → Bytes → Option Piece
adpcm_piece adpcm_to_alaw bytes = transcoded (decode bytes)
adpcm_piece _ bytes = none

abbrev pub piece_of : Learned → BcMedia → Option Piece
piece_of l (iframe i) = piece (video_stream l.video) true i.bytes
piece_of l (pframe i) = piece (video_stream l.video) false i.bytes
piece_of l (BcMedia.aac a) = aac_piece l.plan a.bytes
piece_of l (BcMedia.adpcm a) = adpcm_piece l.plan a.bytes
piece_of l _ = none

-- What the muxer declares of a stream.
abbrev pub layout_of : VideoType → Option StreamType → List (ℕ × StreamType)
layout_of v none = (0x100, video_stream v) ∷ []
layout_of v (some kind) = (0x100, video_stream v) ∷ (0x101, kind) ∷ []

abbrev pub layout : Learned → List (ℕ × StreamType)
layout l = layout_of l.video (stream_type l.plan)

abbrev pub audio_of : AudioPlan → Option ℕ
audio_of silent = none
audio_of _ = some 1

-- The tracks of a new muxer: the video under PID 0x100, the audio, if there is one, under 0x101,
-- and no packet written yet.
pub record IsNew (l : Learned) (m : TsMuxer) : Type 0 where
  pub tracks :
      m.tracks
      ≡ map (λ (e : ℕ × StreamType). record { pid = e.0; kind = e.1; continuity = 0 }) (layout l)
  pub pat_unsent : m.pat_continuity ≡ 0
  pub pmt_unsent : m.pmt_continuity ≡ 0

-- The chunk carries the piece, from the muxer before it to the one after: its payload is read from
-- the packets of the track of its kind, under the PID of that track and with the counter that is
-- due, in PES packets with the time of the chunk.
pub record Carries (l : Learned) (m : TsMuxer) (x : Piece) (c : Chunk) (m' : TsMuxer) : Type 0 where
  pub index : ℕ
  pub track : Track
  pub declared : get_elem? m.tracks index ≡ some track
  pub place : get_elem? (layout l) index ≡ some (track.pid, x.kind)
  pub kind : track.kind ≡ x.kind
  pub resync : c.resync_point ≡ x.resync
  pub framed : IsFramed m index track (clock_of c.pts_us) x.payload c.bytes m'

pub record IsReady (l : Learned) (k : TsPacker) : Type 0 where
  pub laid : entries k.muxer ≡ layout l
  pub video : k.video ≡ 0
  pub audio : k.audio ≡ audio_of l.plan
  pub planned : k.plan ≡ l.plan

-- Where there is nothing to carry the muxer stays as it is.
abbrev pub CarriesOption : Learned → TsMuxer → Option Piece → Option Chunk → TsMuxer → Type 0
CarriesOption l m none none m' = m' ≡ m
CarriesOption l m (some x) (some c) m' = Carries l m x c m'
CarriesOption l m _ _ m' = ⊥

pub record Handles (l : Learned) (m : TsMuxer) (x : Option Piece)
    (o : Option (Packer × Option Chunk)) : Type 0 where
  pub next : TsPacker
  pub tracker : TimestampTracker
  pub chunk : Option Chunk
  pub given : o ≡ some (record { kind = ts next; tracker = tracker }, chunk)
  pub ready : IsReady l next
  pub carried : CarriesOption l m x chunk next.muxer

abbrev HasPidEntry : ℕ × StreamType → Type 0
HasPidEntry e = e.0 < 8192

length-layout : (v : VideoType) (o : Option StreamType) → length (layout_of v o) ≤ 2
length-layout v none = omega arith
length-layout v (some kind) = omega arith

few_tracks : (l : Learned) (k : TsPacker) → IsReady l k → length k.muxer.tracks ≤ 33
few_tracks l k r = omega (
  arith,
  length-map entry k.muxer.tracks,
  ap length r.laid,
  length-layout l.video (stream_type l.plan),
)

pids_fit : (v : VideoType) (o : Option StreamType) → All HasPidEntry (layout_of v o)
pids_fit v none = (omega arith, tt)
pids_fit v (some kind) = (omega arith, (omega arith, tt))

All-entries : (xs : List Track) → All HasPidEntry (map entry xs) → All HasPid xs
All-entries [] h = tt
All-entries (t ∷ xs) (h, hs) = (h, All-entries xs hs)

ready_pids : (l : Learned) (k : TsPacker) → IsReady l k → All HasPid k.muxer.tracks
ready_pids l k r =
    All-entries k.muxer.tracks
      (subst (All HasPidEntry) (sym r.laid) (pids_fit l.video (stream_type l.plan)))

rest_nil : (xs ys : Bytes) → [] ≡ xs ++ ys → ys ≡ []
rest_nil [] ys e = sym e
rest_nil (x ∷ xs) ys e = cc

-- Something is written: the packets carry at least the header.
framed_nonempty :
    (m : TsMuxer) (i : ℕ) (t : Track) (clock b : ℕ) (bs : Bytes) (m' : TsMuxer)
    → ¬ IsFramed m i t clock (b ∷ bs) [] m'
unfolding pes_header
framed_nonempty m i t clock b bs m' f =
    let nothing = rest_nil f.tables f.packets f.split in
    let carried = rw nothing at f.carried in
    let e = sym (demux_nothing _ t.pid t.continuity) ∙ carried in cc

chunk_of-CarriesOption :
    (l : Learned) (m : TsMuxer) (i : ℕ) (kind : StreamType) (resync : Bool) (pts_us b : ℕ)
    (bs out : Bytes) (t : Track) (m' : TsMuxer)
    → get_elem? m.tracks i ≡ some t
    → get_elem? (layout l) i ≡ some (t.pid, kind)
    → t.kind ≡ kind
    → IsFramed m i t (clock_of pts_us) (b ∷ bs) out m'
    → CarriesOption l m (piece kind resync (b ∷ bs)) (chunk_of out resync pts_us) m'
chunk_of-CarriesOption l m i kind resync pts_us b bs [] t m' d g e f =
    elim (framed_nonempty m i t (clock_of pts_us) b bs m' f) [ ]
chunk_of-CarriesOption l m i kind resync pts_us b bs (x ∷ xs) t m' d g e f = record {
  index = i;
  track = t;
  declared = d;
  place = g;
  kind = e;
  resync = refl;
  framed = f;
}

written-CarriesOption :
    (l : Learned) (k : TsPacker) (i pid : ℕ) (kind : StreamType) (pts_us : ℕ) (resync : Bool)
    (payload : Bytes)
    → IsReady l k
    → get_elem? (layout l) i ≡ some (pid, kind)
    → pid < 8192
    → CarriesOption l k.muxer
        (piece kind resync payload)
        (chunk_of (write_frame i pts_us resync payload k.muxer).1 resync pts_us)
        (write_frame i pts_us resync payload k.muxer).0
unfolding write_frame
written-CarriesOption l k i pid kind pts_us resync [] r e h = refl
written-CarriesOption l k i pid kind pts_us resync (b ∷ bs) r e h =
    let (t, e', place) =
      get_elem?-map entry k.muxer.tracks i (pid, kind) (ap (λ es. get_elem? es i) r.laid ∙ e) in
    let same = ap (λ (x : ℕ × StreamType). x.0) place in
    chunk_of-CarriesOption l k.muxer i kind resync pts_us b bs _ t _ e'
      (e ∙ ap (λ p. some (p, kind)) (sym same)) (ap (λ (x : ℕ × StreamType). x.1) place)
      (write_frame-IsFramed i pts_us resync b bs k.muxer t e' (omega (arith, same, h))
        (few_tracks l k r) (ready_pids l k r))

-- A payload written to a declared track is carried on it, and the declarations stay as they are.
pub write-Handles :
    (l : Learned) (k : TsPacker) (i pid : ℕ) (kind : StreamType) (clock : TimestampTracker × ℕ)
    (resync : Bool) (payload : Bytes)
    → IsReady l k
    → get_elem? (layout l) i ≡ some (pid, kind)
    → pid < 8192
    → Handles l k.muxer (piece kind resync payload) (some (write k i clock resync payload))
unfolding write
write-Handles l k i pid kind (tracker, pts_us) resync payload r e h = record {
  next = record k { muxer = (write_frame i pts_us resync payload k.muxer).0 };
  tracker = tracker;
  chunk = chunk_of (write_frame i pts_us resync payload k.muxer).1 resync pts_us;
  given = refl;
  ready = record {
    laid = entries-write_frame i pts_us resync payload k.muxer ∙ r.laid;
    video = r.video;
    audio = r.audio;
    planned = r.planned;
  };
  carried = written-CarriesOption l k i pid kind pts_us resync payload r e h;
}
