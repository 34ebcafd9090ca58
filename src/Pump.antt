-- ===== src/Pump.antt =====
-- src/stream/pump.rs: what a stream publishes, learnt from the first frames of the camera. The log
-- calls are left out. Time is a number of nanoseconds, and what is done between two waits takes none
-- of it.
pub mod Packer
pub mod Backlog
pub mod Learning
pub mod Settled
pub mod Annexb
pub mod Tracks
pub mod Pieces
pub mod Programs
pub mod Session
mod Examples
use neolink.Base.{
  ℕ, ◌+◌, ◌-◌, Bool, true, false, not, ◌&&◌, ◌||◌, Option, some, ltb, leb, if◌then◌else◌, List, [],
  ◌∷◌, ◌++◌,
}
use neolink.Base.Int.{ℤ, pos, negsuc}
use neolink.Media.Model.{VideoType, BcMedia, info_v1, info_v2, iframe, pframe}
use neolink.Mpegts.{StreamType}

pub data CameraAudio : Type 0 where
  aac adpcm : CameraAudio

pub data AudioPlan : Type 0 where
  pass_aac adpcm_to_alaw silent : AudioPlan

abbrev pub stream_type : AudioPlan → Option StreamType
stream_type AudioPlan.pass_aac = some StreamType.aac
stream_type AudioPlan.adpcm_to_alaw = some StreamType.pcma
stream_type AudioPlan.silent = Option.none

-- `Format` and `Audio` of src/stream/cmdline.rs.
pub data Format : Type 0 where
  mpeg_ts annexb : Format

pub data Audio : Type 0 where
  auto aac pcma none : Audio

pub record Learned : Type 0 where
  pub video : VideoType
  pub plan : AudioPlan
  pub backlog : List BcMedia

-- The probe is in nanoseconds.
pub record Settings : Type 0 where
  pub format : Format
  pub audio : Audio
  pub audio_probe : ℤ

-- The local variables of the loop of `learn`.
pub record Probe : Type 0 where
  pub video : Option VideoType
  pub audio : Option CameraAudio
  pub backlog : List BcMedia
  pub started : Option ℕ

-- A negative probe is taken for 0.
abbrev pub probe_of : ℤ → ℕ
probe_of (pos n) = n
probe_of (negsuc n) = 0

abbrev pub is_some {ℓ} : {A : Type ℓ} → Option A → Bool
is_some Option.none = false
is_some (some a) = true

abbrev pub wants : Format → Audio → Bool
wants Format.annexb audio = false
wants Format.mpeg_ts Audio.none = false
wants Format.mpeg_ts audio = true

abbrev pub want_audio : Settings → Bool
want_audio s = wants s.format s.audio

unfoldable pub settled : Settings → Probe → Bool
settled s p = is_some p.video && (not (want_audio s) || is_some p.audio)

abbrev pub or_insert {ℓ} : {A : Type ℓ} → Option A → A → Option A
or_insert Option.none a = some a
or_insert (some b) a = some b

-- `if !backlog.is_empty() { backlog.push(frame) }`
abbrev pub push_after : List BcMedia → BcMedia → List BcMedia
push_after [] frame = []
push_after (f ∷ fs) frame = f ∷ fs ++ (frame ∷ [])

-- A frame of the camera, at the time `now`.
unfoldable pub take_in : ℕ → BcMedia → Probe → Probe
take_in now (iframe i) p = record p {
  started = or_insert p.started now;
  video = some i.video_type;
  backlog = iframe i ∷ [];
}
take_in now (pframe i) p =
    if is_some p.video
    then record p { video = some i.video_type; backlog = p.backlog ++ (pframe i ∷ []) }
    else p
take_in now (BcMedia.aac a) p = record p {
  audio = or_insert p.audio CameraAudio.aac;
  backlog = push_after p.backlog (BcMedia.aac a);
}
take_in now (BcMedia.adpcm a) p = record p {
  audio = or_insert p.audio CameraAudio.adpcm;
  backlog = push_after p.backlog (BcMedia.adpcm a);
}
take_in now (info_v1 i) p = p
take_in now (info_v2 i) p = p

-- `started.map(|s| s.elapsed()).unwrap_or_default()`
abbrev pub elapsed : ℕ → Option ℕ → ℕ
elapsed now Option.none = 0
elapsed now (some s) = now - s

-- Whether the probe ends before something comes at the time `at_time`; `none` for what never comes.
unfoldable pub is_timed_out : Settings → ℕ → Probe → Option ℕ → Bool
is_timed_out s now p at_time =
    let probe = probe_of s.audio_probe in
    let spent = elapsed now p.started in
    if is_some p.video
    then if leb spent probe
      then elim at_time [ Option.none ↦ true | some t ↦ ltb (now + (probe - spent)) t ]
      else true
    else false

-- Whether the loop is left without another frame.
unfoldable pub is_over : Settings → ℕ → Probe → Option ℕ → Bool
is_over s now p at_time = settled s p || is_timed_out s now p at_time

unfoldable pub decide_audio : Audio → Option CameraAudio → AudioPlan
decide_audio Audio.none found = AudioPlan.silent
decide_audio Audio.auto Option.none = AudioPlan.silent
decide_audio Audio.aac Option.none = AudioPlan.silent
decide_audio Audio.pcma Option.none = AudioPlan.silent
decide_audio Audio.auto (some CameraAudio.aac) = AudioPlan.pass_aac
decide_audio Audio.aac (some CameraAudio.aac) = AudioPlan.pass_aac
decide_audio Audio.auto (some CameraAudio.adpcm) = AudioPlan.adpcm_to_alaw
decide_audio Audio.pcma (some CameraAudio.adpcm) = AudioPlan.adpcm_to_alaw
decide_audio Audio.aac (some CameraAudio.adpcm) = AudioPlan.silent
decide_audio Audio.pcma (some CameraAudio.aac) = AudioPlan.silent

-- `stopped` is the error; `waiting` is a wait that nothing ends.
pub data Outcome : Type 0 where
  learned : Learned → Outcome
  stopped : Outcome
  waiting : Outcome

abbrev pub conclude : Settings → Option CameraAudio → List BcMedia → Option VideoType → Outcome
conclude s audio backlog Option.none = stopped
conclude s audio backlog (some video) =
    learned (record { video = video; plan = decide_audio s.audio audio; backlog = backlog })

-- What follows the loop.
unfoldable pub finish : Settings → Probe → Outcome
finish s p = conclude s p.audio p.backlog p.video

-- What the channel answers and when: a frame, or `none` once the camera has gone. After the last
-- answer there is no other.
abbrev pub Arrivals : Type 0
Arrivals = List (ℕ × Option BcMedia)

unfoldable pub learn_from : Settings → ℕ → Probe → Arrivals → Outcome
learn_from s now p [] = if is_over s now p Option.none then finish s p else waiting
learn_from s now p ((at_time, Option.none) ∷ rest) =
    if is_over s now p (some at_time) then finish s p else stopped
learn_from s now p ((at_time, some frame) ∷ rest) =
    let next = learn_from s at_time (take_in at_time frame p) rest in
    if is_over s now p (some at_time) then finish s p else next

abbrev pub new_probe : Probe
new_probe = record { video = Option.none; audio = Option.none; backlog = []; started = Option.none }

unfoldable pub learn : Settings → ℕ → Arrivals → Outcome
learn s now arrivals = learn_from s now new_probe arrivals
