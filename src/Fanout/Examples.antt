-- ===== src/Fanout/Examples.antt =====
-- Runs of the tests in src/stream/fanout.rs, and the theorems at concrete inputs.
use mathlib.Core.Option
use neolink.Base.{
  ℕ, ◌*◌, ◌≡◌, refl, Bool, true, false, none, some, List, [], ◌∷◌, replicate, if◌then◌else◌,
}
use neolink.Fanout.{
  Chunk, Queue, new, attach, push, next, deliver, behind, cache, update, retain_push, seed_queue,
  take_next,
}
use neolink.Fanout.Delivery.{Follows}
use neolink.Fanout.Cache.{IsBounded}
use neolink.Fanout.Readers.{mem}
use neolink.Fanout.Playback.{
  Event, attached, pushed, read, start, run, step, handed-Follows, gop-IsBounded, push_store,
}

abbrev chunk_at : ℕ → Bool → Chunk
chunk_at ms resync = record { bytes = replicate 16 0; resync_point = resync; pts_us = ms * 1000 }

abbrev times : List Chunk → List ℕ
times [] = []
times (c ∷ cs) = c.pts_us ∷ times cs

abbrev read_3 : List Event
read_3 = read 0 ∷ read 0 ∷ read 0 ∷ []

-- `a_new_consumer_starts_at_a_keyframe`, newest first.
abbrev keyframe_run : List Event
keyframe_run =
    attached
    ∷ pushed (chunk_at 0 false)
    ∷ pushed (chunk_at 40 false)
    ∷ pushed (chunk_at 80 true)
    ∷ pushed (chunk_at 120 false)
    ∷ read_3

starts_at_keyframe : times ((run (start none) keyframe_run).handed 0) ≡ 120_000 ∷ 80_000 ∷ []
unfolding run step start new attach push next cache deliver behind update retain_push seed_queue
    take_next
starts_at_keyframe = refl

-- `a_stalled_consumer_loses_its_backlog_rather_than_replaying_it`.
abbrev stalled_run : List Event
stalled_run =
    attached
    ∷ pushed (chunk_at 0 true)
    ∷ pushed (chunk_at 40 false)
    ∷ pushed (chunk_at 80 false)
    ∷ pushed (chunk_at 200 false)
    ∷ pushed (chunk_at 240 false)
    ∷ pushed (chunk_at 280 true)
    ∷ pushed (chunk_at 320 false)
    ∷ read_3

loses_backlog : times ((run (start (some 100_000)) stalled_run).handed 0) ≡ 320_000 ∷ 280_000 ∷ []
unfolding run step start new attach push next cache deliver behind update retain_push seed_queue
    take_next
loses_backlog = refl

handed-Follows_example :
    Follows
      (run (start (some 100_000)) stalled_run).stream
      ((run (start (some 100_000)) stalled_run).handed 0)
      false
handed-Follows_example = handed-Follows (some 100_000) stalled_run 0

gop-IsBounded_example : IsBounded (run (start none) keyframe_run).fanout.gop
gop-IsBounded_example = gop-IsBounded none keyframe_run

push_store_example :
    let f = (run (start none) keyframe_run).fanout in
    (push f (chunk_at 160 false)).store 0 ≡ (
      if mem 0 f.consumers
      then Option.map (deliver f.limit_us (chunk_at 160 false)) (f.store 0)
      else f.store 0)
push_store_example = push_store none keyframe_run (chunk_at 160 false) 0

abbrev lagging : Queue
lagging = record {
  chunks = chunk_at 0 true ∷ chunk_at 40 false ∷ [];
  awaiting_resync = false;
  seeded = 0;
  closed = false;
  overruns = 0;
}
