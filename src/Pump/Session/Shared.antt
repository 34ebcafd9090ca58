-- ===== src/Pump/Session/Shared.antt =====
-- What the readers of one session of src/pipe/mod.rs are handed: the packer, the fanout and the
-- camera together.
use neolink.Base.{
  ℕ, ◌≡◌, ◌≢◌, refl, sym, ap, ◌∙◌, false, Option, some, none, List, [], ◌∷◌, ◌++◌, append_assoc,
  append-nil, subst,
}
use neolink.Media.Model.{BcMedia}
use neolink.Fanout.{Chunk}
use neolink.Fanout.Playback.{System, Event, step, run, start, handed-Follows}
use neolink.Fanout.Delivery.{Follows, rev_onto}
use neolink.Pump.{Learned, Format}
use neolink.Pump.Packer.{Packer, new, frame, pack_frames}
use neolink.Pump.Programs.{CarriesAll, pieces, ts_run}
use neolink.Pump.Session.{
  Action, attached, read, dropped, event_of, End, running, without_readers, camera_stopped,
  panicked, Session, push_frame, replay_frame, replay, receive_frame, receive, stop, while_running,
  Turn, replayed, came, gone, acted, turn, session, begin,
}
use neolink.Pump.Session.Pushed.{
  Packed, Tells, run-append, quiet-Tells, ended-Tells, never_none, push_frame-Tells,
  look_for_readers-Tells,
}

replay_frame-Tells :
    (l : Learned) (first : Packer) (before : System) (s : Session) (f : BcMedia) (fs : List BcMedia)
    (o : Option (Packer × Option Chunk))
    → frame s.packer f ≡ o
    → s.left ≡ f ∷ fs
    → Tells l first before s
    → Tells l first before (replay_frame s f fs o)
replay_frame-Tells l first before s f fs none g e t =
    elim (never_none l first s.packer s.taken t.chunks f t.started t.packed g) [ ]
replay_frame-Tells l first before s f fs (some packed) g e t =
    push_frame-Tells l first before s f fs t.later packed g
      (append_assoc s.taken (f ∷ []) fs ∙ ap (λ r. s.taken ++ r) (sym e) ∙ t.order) t

replay-Tells :
    (l : Learned) (first : Packer) (before : System) (s : Session) (left : List BcMedia)
    → s.left ≡ left
    → Tells l first before s
    → Tells l first before (replay s left)
replay-Tells l first before s [] e t = t
replay-Tells l first before s (f ∷ fs) e t =
    replay_frame-Tells l first before s f fs (frame s.packer f) refl e t

-- Where nothing is left of the backlog, a frame comes after all that was taken.
order_later :
    (taken left backlog later : List BcMedia) (f : BcMedia)
    → left ≡ []
    → taken ++ left ≡ backlog ++ later
    → (taken ++ (f ∷ [])) ++ left ≡ backlog ++ (later ++ (f ∷ []))
order_later taken left backlog later f e o =
    ap (λ r. (taken ++ (f ∷ [])) ++ r) e
    ∙ append-nil (taken ++ (f ∷ []))
    ∙ ap (λ r. r ++ (f ∷ [])) (sym (append-nil taken) ∙ ap (λ r. taken ++ r) (sym e) ∙ o)
    ∙ append_assoc backlog later (f ∷ [])

receive_frame-Tells :
    (l : Learned) (first : Packer) (before : System) (s : Session) (f : BcMedia)
    (o : Option (Packer × Option Chunk))
    → frame s.packer f ≡ o
    → s.left ≡ []
    → Tells l first before s
    → Tells l first before (receive_frame s f o)
receive_frame-Tells l first before s f none g e t =
    elim (never_none l first s.packer s.taken t.chunks f t.started t.packed g) [ ]
receive_frame-Tells l first before s f (some packed) g e t =
    look_for_readers-Tells l first before (push_frame s f packed) (
      push_frame-Tells l first before s f s.left (t.later ++ (f ∷ [])) packed g
        (order_later s.taken s.left l.backlog t.later f e t.order) t)

receive-Tells :
    (l : Learned) (first : Packer) (before : System) (s : Session) (f : BcMedia)
    (left : List BcMedia)
    → s.left ≡ left
    → Tells l first before s
    → Tells l first before (receive s f left)
receive-Tells l first before s f [] e t =
    receive_frame-Tells l first before s f (frame s.packer f) refl e t
receive-Tells l first before s f (g ∷ gs) e t = t

stop-Tells :
    (l : Learned) (first : Packer) (before : System) (s : Session) (left : List BcMedia)
    → Tells l first before s
    → Tells l first before (stop s left)
stop-Tells l first before s [] t = ended-Tells l first before s camera_stopped (λ e. cc) t
stop-Tells l first before s (g ∷ gs) t = t

while_running-Tells :
    (l : Learned) (first : Packer) (before : System) (end : End) (s r : Session)
    → Tells l first before s
    → Tells l first before r
    → Tells l first before (while_running end s r)
while_running-Tells l first before running s r t u = u
while_running-Tells l first before without_readers s r t u = t
while_running-Tells l first before camera_stopped s r t u = t
while_running-Tells l first before panicked s r t u = t

silent_action : (s : System) (a : Action) → (step s (event_of a)).stream ≡ s.stream
unfolding step
silent_action s attached = refl
silent_action s (read id) = refl
silent_action s (dropped id) = refl

turn-Tells :
    (l : Learned) (first : Packer) (before : System) (s : Session) (u : Turn)
    → Tells l first before s
    → Tells l first before (turn s u)
unfolding turn
turn-Tells l first before s replayed t =
    while_running-Tells l first before s.end s _ t (replay-Tells l first before s s.left refl t)
turn-Tells l first before s (came f) t =
    while_running-Tells l first before s.end s _ t (receive-Tells l first before s f s.left refl t)
turn-Tells l first before s gone t =
    while_running-Tells l first before s.end s _ t (stop-Tells l first before s s.left t)
turn-Tells l first before s (acted a) t =
    quiet-Tells l first before s (event_of a) s.end (silent_action s.system a) t.calm t

session-Tells :
    (l : Learned) (first : Packer) (before : System) (s : Session) (turns : List Turn)
    → Tells l first before s
    → Tells l first before (session s turns)
unfolding session
session-Tells l first before s [] t = t
session-Tells l first before s (u ∷ us) t =
    session-Tells l first before (turn s u) us (turn-Tells l first before s u t)

begin-Tells :
    (l : Learned) (first : Packer) (before : System)
    → new l Format.mpeg_ts ≡ some first
    → Tells l first before (begin l first before)
unfolding begin pack_frames run
begin-Tells l first before n = record {
  events = [];
  reached = refl;
  chunks = [];
  packed = refl;
  stream = refl;
  later = [];
  order = sym (append-nil l.backlog);
  started = n;
  calm = λ e. cc;
}

-- What the readers of a session get.
pub record IsShared (l : Learned) (before : System) (s : Session) : Type 0 where
  pub later : List BcMedia
  pub order : s.taken ++ s.left ≡ l.backlog ++ later
  pub chunks : List Chunk
  pub carried : CarriesAll l (pieces l s.taken) chunks
  pub stream : s.system.stream ≡ rev_onto chunks before.stream
  pub calm : s.end ≢ panicked
  pub followed : (id : ℕ) → Follows s.system.stream (s.system.handed id) false

carried_by :
    (l : Learned) (first p : Packer) (taken : List BcMedia) (chunks : List Chunk)
    → new l Format.mpeg_ts ≡ some first
    → Packed first taken p chunks
    → CarriesAll l (pieces l taken) chunks
carried_by l first p taken chunks n e =
    let (first', p', chunks', n', e', c) = ts_run l taken in
    let same : first' ≡ first = cc in
    let e'' : Packed first taken p' chunks' = subst (λ q. Packed q taken p' chunks') same e' in
    let equal : chunks' ≡ chunks = cc in subst (CarriesAll l (pieces l taken)) equal c

-- A session in the MPEG-TS format, on a fanout that has been in use, never panics. What its packer
-- has been given, with what is left of the backlog, is the backlog with other frames behind it;
-- whatever the readers do, the stream is what it was with one chunk behind it for each given frame
-- that has a payload for a published track, in order, and the chunk carries it; and what each reader
-- is handed is made of runs of consecutive chunks of the stream, in order and none twice, that begin
-- at resync points.
pub session-IsShared :
    (l : Learned) (first : Packer) (limit : Option ℕ) (earlier : List Event) (turns : List Turn)
    → new l Format.mpeg_ts ≡ some first
    → IsShared l
        (run (start limit) earlier)
        (session (begin l first (run (start limit) earlier)) turns)
session-IsShared l first limit earlier turns n =
    let before = run (start limit) earlier in
    let s = session (begin l first before) turns in
    let t =
      session-Tells l first before (begin l first before) turns (begin-Tells l first before n) in
    let whole = t.reached ∙ sym (run-append (start limit) earlier t.events) in
    record {
      later = t.later;
      order = t.order;
      chunks = t.chunks;
      carried = carried_by l first s.packer s.taken t.chunks n t.packed;
      stream = t.stream;
      calm = t.calm;
      followed = λ id.
          subst (λ (y : System). Follows y.stream (y.handed id) false) (sym whole)
            (handed-Follows limit (earlier ++ t.events) id);
    }
