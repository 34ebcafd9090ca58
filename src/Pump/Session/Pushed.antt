-- ===== src/Pump/Session/Pushed.antt =====
-- What one session of src/pipe/mod.rs has put into the fanout, as it goes on.
use neolink.Base.{
  ◌≡◌, ◌≢◌, refl, sym, ap, ◌∙◌, ◌==◌, inl, inr, Option, some, none, List, [], ◌∷◌, ◌++◌, if-cases,
  Option-cases, append_assoc, append-nil,
}
use neolink.Media.Model.{BcMedia}
use neolink.Fanout.{Chunk, consumers}
use neolink.Fanout.Playback.{System, Event, pushed, counted, step, run}
use neolink.Fanout.Delivery.{rev_onto, rev_onto-push}
use neolink.Pump.{Learned, Format}
use neolink.Pump.Packer.{Packer, new, frame, pack_frames, prepend, and_then}
use neolink.Pump.Programs.{ts_run}
use neolink.Pump.Session.{
  End, without_readers, panicked, Session, push_chunk, push_frame, look_for_readers,
}

pub run-append : (s : System) (es fs : List Event) → run s (es ++ fs) ≡ run (run s es) fs
unfolding run
run-append s [] fs = refl
run-append s (e ∷ es) fs = run-append (step s e) es fs

abbrev chunk_list : Option Chunk → List Chunk
chunk_list none = []
chunk_list (some c) = c ∷ []

abbrev pub Packed : Packer → List BcMedia → Packer → List Chunk → Type 0
Packed p fs q chunks = pack_frames p fs ≡ some (q, chunks)

prepend-some :
    (chunk : Option Chunk) (o : Option (Packer × List Chunk)) (q : Packer) (chunks : List Chunk)
    → prepend chunk o ≡ some (q, chunks)
    → (rest : List Chunk) × (o ≡ some (q, rest)) × (chunks ≡ chunk_list chunk ++ rest)
prepend-some chunk none q chunks e = cc
prepend-some none (some (p, rest)) q chunks e = (rest, cc, cc)
prepend-some (some c) (some (p, rest)) q chunks e = (rest, cc, cc)

prepend-list :
    (chunk : Option Chunk) (q : Packer) (rest : List Chunk)
    → prepend chunk (some (q, rest)) ≡ some (q, chunk_list chunk ++ rest)
prepend-list none q rest = refl
prepend-list (some c) q rest = refl

-- One frame more at the end.
pack_frames-append :
    (fs : List BcMedia) (p q r : Packer) (chunks : List Chunk) (f : BcMedia) (chunk : Option Chunk)
    → Packed p fs q chunks
    → frame q f ≡ some (r, chunk)
    → Packed p (fs ++ (f ∷ [])) r (chunks ++ chunk_list chunk)
unfolding pack_frames
pack_frames-append [] p q r chunks f chunk e g =
    let same : p ≡ q = cc in
    let empty : [] ≡ chunks = cc in
    ap (λ o. and_then o (λ q. some (q, []))) (ap (λ p. frame p f) same ∙ g)
    ∙ prepend-list chunk r []
    ∙ ap (λ l. some (r, l)) (append-nil (chunk_list chunk) ∙ ap (λ l. l ++ chunk_list chunk) empty)
pack_frames-append (x ∷ fs) p q r chunks f chunk e g = elim (Option-cases (frame p x)) [
  | inl h ↦
      let bad : ◌≡◌ {A = Option (Packer × List Chunk)} none (some (q, chunks)) = rw h at e in cc
  | inr ((p', c), h) ↦
      let (rest, i, j) = prepend-some c (pack_frames p' fs) q chunks (rw h at e) in
      let ih = pack_frames-append fs p' q r rest f chunk i g in
      ap (λ o. and_then o (λ q. pack_frames q (fs ++ (f ∷ [])))) h
      ∙ ap (prepend c) ih
      ∙ prepend-list c r (rest ++ chunk_list chunk)
      ∙ ap (λ l. some (r, l))
          (sym (append_assoc (chunk_list c) rest (chunk_list chunk))
            ∙ ap (λ l. l ++ chunk_list chunk) (sym j))
]

prepend-none : (c : Option Chunk) → prepend c none ≡ none
prepend-none none = refl
prepend-none (some c) = refl

-- A frame that the packer panics at makes the run panic.
pack_frames-none :
    (fs : List BcMedia) (p q : Packer) (chunks : List Chunk) (f : BcMedia)
    → Packed p fs q chunks
    → frame q f ≡ none
    → pack_frames p (fs ++ (f ∷ [])) ≡ none
unfolding pack_frames
pack_frames-none [] p q chunks f e g =
    let same : p ≡ q = cc in ap (λ o. and_then o (λ q. some (q, []))) (ap (λ p. frame p f) same ∙ g)
pack_frames-none (x ∷ fs) p q chunks f e g = elim (Option-cases (frame p x)) [
  | inl h ↦ ap (λ o. and_then o (λ q. pack_frames q (fs ++ (f ∷ [])))) h
  | inr ((p', c), h) ↦
      let (rest, i, j) = prepend-some c (pack_frames p' fs) q chunks (rw h at e) in
      ap (λ o. and_then o (λ q. pack_frames q (fs ++ (f ∷ [])))) h
      ∙ ap (prepend c) (pack_frames-none fs p' q rest f i g)
      ∙ prepend-none c
]

-- In the MPEG-TS format it never does.
pub never_none :
    (l : Learned) (first q : Packer) (taken : List BcMedia) (chunks : List Chunk) (f : BcMedia)
    → new l Format.mpeg_ts ≡ some first
    → Packed first taken q chunks
    → frame q f ≢ none
never_none l first q taken chunks f n e = λ g.
    let (first', p', chunks', n', e', c) = ts_run l (taken ++ (f ∷ [])) in
    let same : first' ≡ first = cc in
    let bad =
      ap (λ p. pack_frames p (taken ++ (f ∷ []))) same
      ∙ pack_frames-none taken first q chunks f e g in
    cc

-- What has come of a session so far.
pub record Tells (l : Learned) (first : Packer) (before : System) (s : Session) : Type 0 where
  pub events : List Event
  pub reached : s.system ≡ run before events
  pub chunks : List Chunk
  pub packed : Packed first s.taken s.packer chunks
  pub stream : s.system.stream ≡ rev_onto chunks before.stream
  pub later : List BcMedia
  pub order : s.taken ++ s.left ≡ l.backlog ++ later
  pub started : new l Format.mpeg_ts ≡ some first
  pub calm : s.end ≢ panicked

-- A step of the fanout that pushes nothing.
pub quiet-Tells :
    (l : Learned) (first : Packer) (before : System) (s : Session) (e : Event) (end : End)
    → (step s.system e).stream ≡ s.system.stream
    → end ≢ panicked
    → Tells l first before s
    → Tells l first before (record s { system = step s.system e; end = end })
unfolding run
quiet-Tells l first before s e end same c t = record {
  events = t.events ++ (e ∷ []);
  reached = ap (λ r. step r e) t.reached ∙ sym (run-append before t.events (e ∷ []));
  chunks = t.chunks;
  packed = t.packed;
  stream = same ∙ t.stream;
  later = t.later;
  order = t.order;
  started = t.started;
  calm = c;
}

pub ended-Tells :
    (l : Learned) (first : Packer) (before : System) (s : Session) (end : End)
    → end ≢ panicked
    → Tells l first before s
    → Tells l first before (record s { end = end })
ended-Tells l first before s end c t = record {
  events = t.events;
  reached = t.reached;
  chunks = t.chunks;
  packed = t.packed;
  stream = t.stream;
  later = t.later;
  order = t.order;
  started = t.started;
  calm = c;
}

rev_onto-chunk_list :
    (xs acc : List Chunk) (c : Option Chunk) (s : System)
    → s.stream ≡ rev_onto xs acc
    → (push_chunk s c).stream ≡ rev_onto (xs ++ chunk_list c) acc
unfolding step
rev_onto-chunk_list xs acc none s e = e ∙ ap (λ l. rev_onto l acc) (sym (append-nil xs))
rev_onto-chunk_list xs acc (some c) s e = ap (λ l. c ∷ l) e ∙ sym (rev_onto-push xs c acc)

pushed_event : Option Chunk → List Event
pushed_event none = []
pushed_event (some c) = pushed c ∷ []

run-push_chunk :
    (before s : System) (es : List Event) (c : Option Chunk)
    → s ≡ run before es
    → push_chunk s c ≡ run before (es ++ pushed_event c)
unfolding run pushed_event
run-push_chunk before s es none e = e ∙ ap (run before) (sym (append-nil es))
run-push_chunk before s es (some c) e =
    ap (λ r. step r (pushed c)) e ∙ sym (run-append before es (pushed c ∷ []))

-- A frame that is packed, whatever is left of the backlog after it.
pub push_frame-Tells :
    (l : Learned) (first : Packer) (before : System) (s : Session) (f : BcMedia)
    (rest later : List BcMedia) (packed : Packer × Option Chunk)
    → frame s.packer f ≡ some packed
    → (s.taken ++ (f ∷ [])) ++ rest ≡ l.backlog ++ later
    → Tells l first before s
    → Tells l first before (push_frame (record s { left = rest }) f packed)
push_frame-Tells l first before s f rest later (p, chunk) g o t = record {
  events = t.events ++ pushed_event chunk;
  reached = run-push_chunk before s.system t.events chunk t.reached;
  chunks = t.chunks ++ chunk_list chunk;
  packed = pack_frames-append s.taken first s.packer p t.chunks f chunk t.packed g;
  stream = rev_onto-chunk_list t.chunks before.stream chunk s.system t.stream;
  later = later;
  order = o;
  started = t.started;
  calm = t.calm;
}

pub look_for_readers-Tells :
    (l : Learned) (first : Packer) (before : System) (s : Session)
    → Tells l first before s
    → Tells l first before (look_for_readers s)
unfolding look_for_readers step
look_for_readers-Tells l first before s t =
    if-cases (Tells l first before) ((consumers s.system.fanout).1 == 0) _ _
      (λ e. quiet-Tells l first before s counted without_readers refl (λ e. cc) t)
      (λ e. quiet-Tells l first before s counted s.end refl t.calm t)
