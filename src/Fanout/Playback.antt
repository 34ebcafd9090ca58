-- ===== src/Fanout/Playback.antt =====
-- The fanout as a whole: a producer and any number of readers, in any order of their steps.
use mathlib.Core.Option
use neolink.Base.{
  ℕ, ◌≤◌, ◌≡◌, refl, ap, arith, Bool, true, false, ◌&&◌, ◌||◌, List, [], ◌∷◌, Option, none, some,
  Bool-cases, Option-cases, inl, inr, ◌==◌, if◌then◌else◌,
}
use neolink.Fanout.{
  Chunk, Queue, Fanout, Next, pending, new, attach, push, next, close, detach, consumers, update,
  deliver, seed_queue, take_next,
}
use neolink.Fanout.Delivery.{
  Follows, skip, loosen, rev_onto, Playable, deliver-Playable, hand_over, take_next-Follows,
  drop_backlog_Follows, nothing_yet,
}
use neolink.Fanout.Cache.{
  IsCurrent, cache-IsCurrent, seed_queue-Playable, IsBounded, cache-IsBounded,
}
use neolink.Fanout.Readers.{
  mem, Distinct, is_alive, update_lem, retain_push_store, retain_push_list, shut, close_all_store,
  mem-retain_alive, retain_alive-Distinct, mem-append_one, append_one-Distinct,
}

-- One step of the producer or of a reader.
pub data Event : Type 0 where
  attached : Event
  pushed : Chunk → Event
  counted : Event
  read : ℕ → Event
  dropped : ℕ → Event
  closed : Event

-- The fanout, the chunks pushed so far and those each reader has been handed, newest first.
pub record System : Type 0 where
  pub fanout : Fanout
  pub stream : List Chunk
  pub handed : ℕ → List Chunk

unfoldable pub start : Option ℕ → System
start limit = record { fanout = new limit; stream = []; handed = λ _. [] }

abbrev hand_to : (ℕ → List Chunk) → ℕ → Next → ℕ → List Chunk
hand_to handed id n j = if j == id then hand_over n (handed id) else handed j

unfoldable pub step : System → Event → System
step s attached = record s { fanout = (attach s.fanout).0 }
step s (pushed c) = record s { fanout = push s.fanout c; stream = c ∷ s.stream }
step s counted = record s { fanout = (consumers s.fanout).0 }
step s (read id) = record s {
  fanout = (next s.fanout id).0;
  handed = hand_to s.handed id (next s.fanout id).1;
}
step s (dropped id) = record s { fanout = detach s.fanout id }
step s closed = record s { fanout = close s.fanout }

unfoldable pub run : System → List Event → System
run s [] = s
run s (e ∷ es) = run (step s e) es

-- What holds of the queue in a cell: a reader that is attached is up to date with the stream.
abbrev CellOk : List Chunk → List Chunk → Bool → Option Queue → Type 0
CellOk stream handed live none = Follows stream handed false
CellOk stream handed true (some q) = Playable stream handed q
CellOk stream handed false (some q) = Follows stream (rev_onto q.chunks handed) false

record Inv (s : System) : Type 0 where
  distinct : Distinct s.fanout.consumers
  no_later : (id : ℕ) → s.fanout.fresh ≤ id → mem id s.fanout.consumers ≡ false
  unused : (id : ℕ) → s.fanout.fresh ≤ id → s.handed id ≡ []
  empty_cells : (id : ℕ) → s.fanout.fresh ≤ id → s.fanout.store id ≡ none
  current : IsCurrent s.stream s.fanout.gop
  bounded : IsBounded s.fanout.gop
  cells : (id : ℕ) → CellOk s.stream (s.handed id) (mem id s.fanout.consumers) (s.fanout.store id)

cell_push :
    (limit : Option ℕ) (c : Chunk) (stream handed : List Chunk) (live : Bool) (cell : Option Queue)
    → CellOk stream handed live cell
    → CellOk
        (c ∷ stream)
        handed
        (live && is_alive cell)
        (if live then Option.map (deliver limit c) cell else cell)
cell_push limit c stream handed true none p = skip c p
cell_push limit c stream handed false none p = skip c p
cell_push limit c stream handed true (some q) p = deliver-Playable limit c q stream handed p
cell_push limit c stream handed false (some q) p = skip c p

cell_drop :
    (stream handed : List Chunk) (live : Bool) (cell : Option Queue)
    → CellOk stream handed live cell
    → Follows stream handed false
cell_drop stream handed true none p = p
cell_drop stream handed false none p = p
cell_drop stream handed true (some q) p = drop_backlog_Follows q.chunks handed _ p
cell_drop stream handed false (some q) p = drop_backlog_Follows q.chunks handed _ p

cell_prune :
    (stream handed : List Chunk) (live : Bool) (cell : Option Queue)
    → CellOk stream handed live cell
    → CellOk stream handed (live && is_alive cell) cell
cell_prune stream handed true none p = p
cell_prune stream handed false none p = p
cell_prune stream handed true (some q) p = p
cell_prune stream handed false (some q) p = p

cell_close :
    (stream handed : List Chunk) (live : Bool) (cell : Option Queue)
    → CellOk stream handed live cell
    → CellOk stream handed false (if live then Option.map shut cell else cell)
cell_close stream handed true none p = p
cell_close stream handed false none p = p
cell_close stream handed true (some q) p = loosen _ p
cell_close stream handed false (some q) p = p

cell_read :
    (stream handed : List Chunk) (live : Bool) (q : Queue)
    → CellOk stream handed live (some q)
    → CellOk stream (hand_over (take_next q).1 handed) live (some (take_next q).0)
cell_read stream handed true q p =
    let (d, same) = take_next-Follows q stream handed _ p in rw same d
cell_read stream handed false q p = (take_next-Follows q stream handed false p).0

hand_to_pending : (handed : ℕ → List Chunk) (k id : ℕ) → hand_to handed k pending id ≡ handed id
hand_to_pending handed k id = elim (Bool-cases (id == k)) [
  | inl e ↦ rw e (ap handed (ground arith))
  | inr e ↦ rw e
]

pushed-Inv : (s : System) (c : Chunk) → Inv s → Inv (step s (pushed c))
unfolding step push
pushed-Inv s c v =
    let ids = s.fanout.consumers in
    let kept = retain_push_list s.fanout.limit_us c ids s.fanout.store v.distinct in
    let cell = λ (id : ℕ). retain_push_store s.fanout.limit_us c ids s.fanout.store id v.distinct in
    record {
      distinct = rw kept (retain_alive-Distinct s.fanout.store ids v.distinct);
      no_later = λ id h. rw (kept, mem-retain_alive s.fanout.store ids id, v.no_later id h);
      unused = v.unused;
      empty_cells = λ id h. rw (cell id, v.no_later id h) (v.empty_cells id h);
      current = cache-IsCurrent s.stream s.fanout.gop c v.current;
      bounded = cache-IsBounded s.fanout.gop c v.bounded;
      cells = λ id.
          rw (kept, mem-retain_alive s.fanout.store ids id, cell id)
            (cell_push s.fanout.limit_us c s.stream (s.handed id) _ _ (v.cells id));
    }

counted-Inv : (s : System) → Inv s → Inv (step s counted)
unfolding step consumers
counted-Inv s v =
    let ids = s.fanout.consumers in
    record {
      distinct = retain_alive-Distinct s.fanout.store ids v.distinct;
      no_later = λ id h. rw (mem-retain_alive s.fanout.store ids id, v.no_later id h);
      unused = v.unused;
      empty_cells = v.empty_cells;
      current = v.current;
      bounded = v.bounded;
      cells = λ id.
          rw (mem-retain_alive s.fanout.store ids id)
            (cell_prune s.stream (s.handed id) _ _ (v.cells id));
    }

closed-Inv : (s : System) → Inv s → Inv (step s closed)
unfolding step close
closed-Inv s v =
    let ids = s.fanout.consumers in
    let cell = λ (id : ℕ). close_all_store ids s.fanout.store id v.distinct in
    record {
      distinct = tt;
      no_later = λ id h. refl;
      unused = v.unused;
      empty_cells = λ id h. rw (cell id, v.no_later id h) (v.empty_cells id h);
      current = v.current;
      bounded = v.bounded;
      cells = λ id. rw (cell id) (cell_close s.stream (s.handed id) _ _ (v.cells id));
    }

dropped-Inv : (s : System) (k : ℕ) → Inv s → Inv (step s (dropped k))
unfolding step detach
dropped-Inv s k v = record {
  distinct = v.distinct;
  no_later = v.no_later;
  unused = v.unused;
  empty_cells = λ id h. ground (arith, update_lem s.fanout.store k none id, v.empty_cells id h);
  current = v.current;
  bounded = v.bounded;
  cells = λ id. elim (Bool-cases (id == k)) [
    | inl e ↦ rw (update_lem s.fanout.store k none id, e) (cell_drop s.stream _ _ _ (v.cells id))
    | inr e ↦ rw (update_lem s.fanout.store k none id, e) (v.cells id)
  ];
}

or_false : (b : Bool) → (b || false) ≡ b
or_false true = refl
or_false false = refl

attached-Inv : (s : System) → Inv s → Inv (step s attached)
unfolding step attach
attached-Inv s v =
    let n = s.fanout.fresh in
    let ids = s.fanout.consumers in
    let cell = some (seed_queue s.fanout.gop) in
    record {
      distinct = append_one-Distinct ids n v.distinct (v.no_later n (omega arith));
      no_later = λ id h. ground (arith, mem-append_one ids n id, v.no_later id (omega arith));
      unused = λ id h. v.unused id (omega arith);
      empty_cells = λ id h.
          ground (arith, update_lem s.fanout.store n cell id, v.empty_cells id (omega arith));
      current = v.current;
      bounded = v.bounded;
      cells = λ id. elim (Bool-cases (id == n)) [
        | inl e ↦
            let gone = v.no_later id (ground arith) in
            rw
              (
                update_lem s.fanout.store n cell id,
                mem-append_one ids n id,
                e,
                gone,
                v.unused id (ground arith),
              )
              (seed_queue-Playable s.stream s.fanout.gop v.current)
        | inr e ↦
            rw (update_lem s.fanout.store n cell id, mem-append_one ids n id, e, or_false)
              (v.cells id)
      ];
    }

read_none :
    (s : System) (k : ℕ)
    → s.fanout.store k ≡ none
    → step s (read k) ≡ record s { handed = hand_to s.handed k pending }
unfolding step next
read_none s k h = rw (h, next)

read_some :
    (s : System) (k : ℕ) (q : Queue)
    → s.fanout.store k ≡ some q
    → step s (read k) ≡ record s {
      fanout = record (s.fanout) { store = update s.fanout.store k (some (take_next q).0) };
      handed = hand_to s.handed k (take_next q).1;
    }
unfolding step next
read_some s k q h = rw (h, next)

read_none-Inv : (s : System) (k : ℕ) → s.fanout.store k ≡ none → Inv s → Inv (step s (read k))
read_none-Inv s k h v =
    let same = λ (id : ℕ). hand_to_pending s.handed k id in
    rw (read_none s k h) (record {
      distinct = v.distinct;
      no_later = v.no_later;
      unused = λ id g. rw (same id) (v.unused id g);
      empty_cells = v.empty_cells;
      current = v.current;
      bounded = v.bounded;
      cells = λ id. rw (same id) (v.cells id);
    })

read_some-Inv :
    (s : System) (k : ℕ) (q : Queue) → s.fanout.store k ≡ some q → Inv s → Inv (step s (read k))
read_some-Inv s k q h v =
    let store = λ (id : ℕ). update_lem s.fanout.store k (some (take_next q).0) id in
    let apart : (id : ℕ) → s.fanout.fresh ≤ id → (id == k) ≡ false =
      λ id g. ground (arith, v.empty_cells id g) in
    rw (read_some s k q h) (record {
      distinct = v.distinct;
      no_later = v.no_later;
      unused = λ id g. rw (apart id g) (v.unused id g);
      empty_cells = λ id g. rw (store id, apart id g) (v.empty_cells id g);
      current = v.current;
      bounded = v.bounded;
      cells = λ id. elim (Bool-cases (id == k)) [
        | inl e ↦
            let e' : id ≡ k = ground arith in
            let p = rw (e', h) at (v.cells id) in
            rw (store id, e, e') (cell_read s.stream (s.handed k) (mem k s.fanout.consumers) q p)
        | inr e ↦ rw (store id, e) (v.cells id)
      ];
    })

read-Inv : (s : System) (k : ℕ) → Inv s → Inv (step s (read k))
read-Inv s k v = elim (Option-cases (s.fanout.store k)) [
  | inl e ↦ read_none-Inv s k e v
  | inr (q, e) ↦ read_some-Inv s k q e v
]

step-Inv : (s : System) (e : Event) → Inv s → Inv (step s e)
step-Inv s attached v = attached-Inv s v
step-Inv s (pushed c) v = pushed-Inv s c v
step-Inv s counted v = counted-Inv s v
step-Inv s (read id) v = read-Inv s id v
step-Inv s (dropped id) v = dropped-Inv s id v
step-Inv s closed v = closed-Inv s v

run-Inv : (s : System) (es : List Event) → Inv s → Inv (run s es)
unfolding run
run-Inv s [] v = v
run-Inv s (e ∷ es) v = run-Inv (step s e) es (step-Inv s e v)

start-Inv : (limit : Option ℕ) → Inv (start limit)
unfolding start new
start-Inv limit = record {
  distinct = tt;
  no_later = λ id h. refl;
  unused = λ id h. refl;
  empty_cells = λ id h. refl;
  current = λ w. cc;
  bounded = omega arith;
  cells = λ id. nothing_yet [];
}

-- Whatever the producer and the readers do, in any order: what each reader has been handed is made
-- of runs of consecutive chunks of the stream, in order and none twice, and each run begins at a
-- resync point, so that no reader is ever given a frame whose references it lacks.
pub handed-Follows :
    (limit : Option ℕ) (es : List Event) (id : ℕ)
    → Follows (run (start limit) es).stream ((run (start limit) es).handed id) false
handed-Follows limit es id =
    cell_drop _ _ _ _ ((run-Inv (start limit) es (start-Inv limit)).cells id)

-- The cached GOP is counted exactly and never exceeds the limit of 16 MiB, whatever is pushed.
pub gop-IsBounded :
    (limit : Option ℕ) (es : List Event) → IsBounded (run (start limit) es).fanout.gop
gop-IsBounded limit es = (run-Inv (start limit) es (start-Inv limit)).bounded

-- A push does the same to each attached reader as if it were alone: its queue is changed by what
-- it holds itself, a reader that has gone stays gone, and one that is not attached is left alone.
pub push_store :
    (limit : Option ℕ) (es : List Event) (c : Chunk) (id : ℕ)
    → let f = (run (start limit) es).fanout in
      (push f c).store id
      ≡ (if mem id f.consumers then Option.map (deliver f.limit_us c) (f.store id) else f.store id)
unfolding push
push_store limit es c id =
    let f = (run (start limit) es).fanout in
    retain_push_store f.limit_us c f.consumers f.store id
      (run-Inv (start limit) es (start-Inv limit)).distinct
