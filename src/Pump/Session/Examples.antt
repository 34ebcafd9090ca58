-- ===== src/Pump/Session/Examples.antt =====
-- A session with two readers, one of which goes.
use neolink.Base.{ℕ, ◌≡◌, refl, List, [], ◌∷◌, some, none}
use neolink.Media.Model.{h264, BcMedia, iframe, pframe}
use neolink.Fanout.Playback.{run, start}
use neolink.Timestamps
use neolink.Mpegts
use neolink.Mpegts.{StreamType}
use neolink.Pump.{AudioPlan, Format, Learned}
use neolink.Pump.Packer.{Packer, ts, new}
use neolink.Pump.Session.{attached, read, dropped, Turn, replayed, came, acted, session, begin}
use neolink.Pump.Session.Shared.{IsShared, session-IsShared}

abbrev key : ℕ → BcMedia
key us = iframe (record { video_type = h264; microseconds = us; time = none; bytes = 0 ∷ 1 ∷ [] })

abbrev delta : ℕ → BcMedia
delta us = pframe (record { video_type = h264; microseconds = us; bytes = 7 ∷ [] })

abbrev learnt : Learned
learnt = record { video = h264; plan = AudioPlan.silent; backlog = key 40 ∷ delta 80 ∷ [] }

abbrev first : Packer
first = record {
  kind = ts (record {
    muxer = Mpegts.new (StreamType.h264 ∷ []);
    video = 0;
    audio = none;
    plan = AudioPlan.silent;
  });
  tracker = Timestamps.new;
}

starts : new learnt Format.mpeg_ts ≡ some first
unfolding new Mpegts.new Mpegts.track Mpegts.declare Mpegts.is_video Mpegts.id
starts = refl

-- The last reader goes before a frame comes: the session ends.
abbrev turns : List Turn
turns =
    acted attached
    ∷ replayed
    ∷ acted attached
    ∷ replayed
    ∷ came (delta 120)
    ∷ acted (read 0)
    ∷ acted (dropped 0)
    ∷ acted (read 1)
    ∷ acted (read 1)
    ∷ acted (dropped 1)
    ∷ came (delta 160)
    ∷ came (delta 200)
    ∷ []

session-IsShared_example :
    IsShared learnt (run (start none) []) (session (begin learnt first (run (start none) [])) turns)
session-IsShared_example = session-IsShared learnt first none [] turns starts
