-- ===== src/Pump/Session.antt =====
-- `stream_once` of src/pipe/mod.rs: one session of a camera, from its packer into the fanout, while
-- readers come, read and go.
pub mod Pushed
pub mod Shared
mod Examples
use neolink.Base.{
  ℕ, ◌==◌, Bool, true, false, Option, some, none, List, [], ◌∷◌, ◌++◌, if◌then◌else◌,
}
use neolink.Media.Model.{BcMedia}
use neolink.Fanout.{Chunk, consumers}
use neolink.Fanout.Playback.{System, Event, pushed, counted, step}
use neolink.Fanout.Playback
use neolink.Pump.{Learned}
use neolink.Pump.Packer.{Packer, frame}

-- What a reader does: the steps of the fanout that push nothing.
pub data Action : Type 0 where
  attached : Action
  read : ℕ → Action
  dropped : ℕ → Action

abbrev pub event_of : Action → Event
event_of attached = Event.attached
event_of (read id) = Event.read id
event_of (dropped id) = Event.dropped id

pub data End : Type 0 where
  running : End
  without_readers : End
  camera_stopped : End
  panicked : End

-- `left` is what has still to be replayed of the backlog, and `taken` the frames that the packer has
-- been given.
pub record Session : Type 0 where
  pub packer : Packer
  pub system : System
  pub left : List BcMedia
  pub end : End
  pub taken : List BcMedia

abbrev pub push_chunk : System → Option Chunk → System
push_chunk s none = s
push_chunk s (some c) = step s (pushed c)

-- `if let Some(chunk) = packer.frame(&frame) { fanout.push(&chunk); }`
abbrev pub push_frame : Session → BcMedia → Packer × Option Chunk → Session
push_frame s f (p, chunk) = record s {
  packer = p;
  system = push_chunk s.system chunk;
  taken = s.taken ++ (f ∷ []);
}

abbrev pub replay_frame :
    Session → BcMedia → List BcMedia → Option (Packer × Option Chunk) → Session
replay_frame s f fs none = record s { end = panicked }
replay_frame s f fs (some packed) = push_frame (record s { left = fs }) f packed

-- The frames of the backlog are replayed without a look at the readers.
abbrev pub replay : Session → List BcMedia → Session
replay s [] = s
replay s (f ∷ fs) = replay_frame s f fs (frame s.packer f)

-- `if fanout.consumers() == 0 { return Ok(()); }`
unfoldable pub look_for_readers : Session → Session
look_for_readers s =
    let system = step s.system counted in
    if (consumers s.system.fanout).1 == 0
    then record s { system = system; end = without_readers }
    else record s { system = system }

abbrev pub receive_frame : Session → BcMedia → Option (Packer × Option Chunk) → Session
receive_frame s f none = record s { end = panicked }
receive_frame s f (some packed) = look_for_readers (push_frame s f packed)

-- A frame that comes, once the backlog has been replayed.
abbrev pub receive : Session → BcMedia → List BcMedia → Session
receive s f [] = receive_frame s f (frame s.packer f)
receive s f (g ∷ gs) = s

abbrev pub stop : Session → List BcMedia → Session
stop s [] = record s { end = camera_stopped }
stop s (g ∷ gs) = s

abbrev pub while_running : End → Session → Session → Session
while_running running s t = t
while_running _ s t = s

pub data Turn : Type 0 where
  replayed : Turn
  came : BcMedia → Turn
  gone : Turn
  acted : Action → Turn

abbrev pub work : Session → Turn → Session
work s replayed = replay s s.left
work s (came f) = receive s f s.left
work s gone = stop s s.left
work s (acted a) = s

-- A session that has ended does nothing more; readers go on.
unfoldable pub turn : Session → Turn → Session
turn s (acted a) = record s { system = step s.system (event_of a) }
turn s t = while_running s.end s (work s t)

unfoldable pub session : Session → List Turn → Session
session s [] = s
session s (t ∷ ts) = session (turn s t) ts

unfoldable pub begin : Learned → Packer → System → Session
begin l p system = record {
  packer = p;
  system = system;
  left = l.backlog;
  end = running;
  taken = [];
}
