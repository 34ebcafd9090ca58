-- ===== src/Pump/Examples.antt =====
-- The pump at a few frames.
use neolink.Base.{ℕ, ◌≡◌, refl, List, [], ◌∷◌, Option, some, take}
use neolink.Base.Int.{pos}
use neolink.Media.Model.{h264, BcMedia, iframe, pframe, aac}
use neolink.Fanout.{Chunk}
use neolink.Timestamps
use neolink.Pump.{
  AudioPlan, Format, Audio, Settings, Learned, Arrivals, learn, learn_from, learned, take_in,
  is_over, is_timed_out, settled, finish, decide_audio,
}
use neolink.Pump.Packer.{Packer, new, pack_frames}
use neolink.Pump.Backlog.{frames_of}
use neolink.Pump.Learning.{IsLearnt, learn-IsLearnt}
use neolink.Pump.Annexb.{IsElementary, annexb_run}
use neolink.Pump.Programs.{CarriesAll, pieces, ts_run}

abbrev key : ℕ → BcMedia
key us =
    iframe (record { video_type = h264; microseconds = us; time = Option.none; bytes = 0 ∷ 1 ∷ [] })

abbrev delta : ℕ → BcMedia
delta us = pframe (record { video_type = h264; microseconds = us; bytes = 7 ∷ [] })

abbrev sound : BcMedia
sound = aac (record { bytes = 255 ∷ 241 ∷ [] })

abbrev a_second : Settings
a_second = record { format = Format.mpeg_ts; audio = Audio.auto; audio_probe = pos 1_000_000_000 }

-- A frame before any keyframe, two keyframes, and then audio.
abbrev arrivals : Arrivals
arrivals =
    (5, some (delta 10))
    ∷ (6, some (key 40))
    ∷ (7, some (delta 80))
    ∷ (8, some (key 120))
    ∷ (9, some sound)
    ∷ (10, some (delta 160))
    ∷ []

abbrev newest : Learned
newest = record { video = h264; plan = AudioPlan.pass_aac; backlog = key 120 ∷ sound ∷ [] }

newest_keyframe : learn a_second 0 arrivals ≡ learned newest
unfolding learn learn_from take_in is_over is_timed_out settled finish decide_audio
newest_keyframe = refl

learn-IsLearnt_example : (n : ℕ) × IsLearnt a_second (frames_of (take n arrivals)) newest
learn-IsLearnt_example = learn-IsLearnt a_second 0 arrivals newest newest_keyframe

-- The audio comes too late.
silent_after_probe :
    learn a_second 0 ((5, some (key 40)) ∷ (1_000_000_006, some sound) ∷ [])
    ≡ learned (record { video = h264; plan = AudioPlan.silent; backlog = key 40 ∷ [] })
unfolding learn learn_from take_in is_over is_timed_out settled finish decide_audio
silent_after_probe = refl

abbrev some_frames : List BcMedia
some_frames = key 40 ∷ sound ∷ delta 80 ∷ []

annexb_run_example :
    (start p : Packer) × (chunks : List Chunk) × (new newest Format.annexb ≡ some start)
    × (pack_frames start some_frames ≡ some (p, chunks))
    × IsElementary Timestamps.new some_frames chunks
annexb_run_example = annexb_run newest some_frames (tt, (tt, (tt, tt)))

ts_run_example :
    (start p : Packer) × (chunks : List Chunk) × (new newest Format.mpeg_ts ≡ some start)
    × (pack_frames start some_frames ≡ some (p, chunks))
    × CarriesAll newest (pieces newest some_frames) chunks
ts_run_example = ts_run newest some_frames
