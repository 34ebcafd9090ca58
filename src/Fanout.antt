-- ===== src/Fanout.antt =====
-- src/stream/fanout.rs: one camera's muxed output, shared out to the readers.
-- A consumer's queue stands in a store under the number of the consumer: `Arc<Inner>` is that
-- number, `Weak::upgrade` the look-up, and a dropped consumer an empty cell. Each method runs
-- under the lock of the state, so it is one step; the wake-ups of waiting tasks are left out, and
-- `next` answers `pending` where the code waits for one.
pub mod Delivery
pub mod Cache
pub mod Readers
pub mod Playback
mod Examples
use neolink.Base.{
  ℕ, zero, suc, ◌+◌, ◌-◌, ◌==◌, Bool, true, false, not, ◌&&◌, Option, none, some, ltb,
  if◌then◌else◌, List, [], ◌∷◌, ◌++◌, length, get_elem?, min,
}
use neolink.Base.Words.{Bytes, u64_max}

pub record Chunk : Type 0 where
  pub bytes : Bytes
  pub resync_point : Bool
  pub pts_us : ℕ

-- The queue behind one consumer.
pub record Queue : Type 0 where
  pub chunks : List Chunk
  pub awaiting_resync : Bool
  pub seeded : ℕ
  pub closed : Bool
  pub overruns : ℕ

abbrev pub gop_cache_limit : ℕ
gop_cache_limit = 16_777_216

-- The most recent GOP.
pub record Gop : Type 0 where
  pub chunks : List Chunk
  pub bytes : ℕ
  pub whole : Bool

abbrev pub Store : Type 0
Store = ℕ → Option Queue

-- `fresh` is the number that the next consumer gets.
pub record Fanout : Type 0 where
  pub consumers : List ℕ
  pub gop : Gop
  pub limit_us : Option ℕ
  pub store : Store
  pub fresh : ℕ

-- A limit is given in microseconds.
abbrev limit_of : Option ℕ → Option ℕ
limit_of none = none
limit_of (some d) = some (min d u64_max)

pub new : Option ℕ → Fanout
new limit = record {
  consumers = [];
  gop = record { chunks = []; bytes = 0; whole = false };
  limit_us = limit_of limit;
  store = λ _. none;
  fresh = 0;
}

pub update : Store → ℕ → Option Queue → Store
update s k q j = if j == k then q else s j

abbrev pub is_empty : List Chunk → Bool
is_empty [] = true
is_empty (_ ∷ _) = false

-- The queue of a reader that has just attached.
pub seed_queue : Gop → Queue
seed_queue gop =
    let seed = if gop.whole then gop.chunks else [] in
    record {
      chunks = seed;
      awaiting_resync = is_empty seed;
      seeded = length seed;
      closed = false;
      overruns = 0;
    }

pub attach : Fanout → Fanout × ℕ
attach f = (
  record f {
    consumers = f.consumers ++ (f.fresh ∷ []);
    store = update f.store f.fresh (some (seed_queue f.gop));
    fresh = f.fresh + 1;
  },
  f.fresh,
)

-- The part of `push` that keeps the GOP in progress.
pub cache : Gop → Chunk → Gop
cache gop chunk =
    let gop' =
      if chunk.resync_point then record gop { chunks = []; bytes = 0; whole = true } else gop in
    let bytes = gop'.bytes + length chunk.bytes in
    if not gop'.whole
    then gop'
    else if ltb gop_cache_limit bytes
    then record gop' { chunks = []; bytes = 0; whole = false }
    else record gop' { chunks = gop'.chunks ++ (chunk ∷ []); bytes = bytes }

-- How far `chunk` is ahead of the first live chunk of the queue; `saturating_sub` stops at 0.
pub behind : Queue → Chunk → ℕ
behind queue chunk = elim (get_elem? queue.chunks queue.seeded) [
  | none ↦ 0
  | some front ↦ chunk.pts_us - front.pts_us
]

abbrev pub is_over : Option ℕ → ℕ → Bool
is_over none n = false
is_over (some limit) n = ltb limit n

abbrev pub push_back : Queue → Chunk → Queue
push_back queue chunk = record queue { chunks = queue.chunks ++ (chunk ∷ []) }

-- The backlog is thrown away.
abbrev pub drop_backlog : Queue → Queue
drop_backlog queue = record queue { chunks = []; seeded = 0; overruns = queue.overruns + 1 }

-- What `push` does to the queue of one attached reader.
pub deliver : Option ℕ → Chunk → Queue → Queue
unfolding behind
deliver limit_us chunk queue =
    if queue.awaiting_resync && not chunk.resync_point
    then queue
    else if is_over limit_us (behind (record queue { awaiting_resync = false }) chunk)
    then (if chunk.resync_point
        then push_back (drop_backlog (record queue { awaiting_resync = false })) chunk
        else record (drop_backlog queue) { awaiting_resync = true })
    else push_back (record queue { awaiting_resync = false }) chunk

-- The `retain` of `push`: the consumers that are gone are taken off the list.
pub retain_push : Option ℕ → Chunk → List ℕ → Store → List ℕ × Store
retain_push limit_us chunk [] store = ([], store)
retain_push limit_us chunk (id ∷ ids) store = elim (store id) [
  | none ↦ retain_push limit_us chunk ids store
  | some queue ↦
      let (kept, store') =
        retain_push limit_us chunk ids (update store id (some (deliver limit_us chunk queue))) in
      (id ∷ kept, store')
]

pub push : Fanout → Chunk → Fanout
push f chunk =
    let (kept, store') = retain_push f.limit_us chunk f.consumers f.store in
    record f { gop = cache f.gop chunk; consumers = kept; store = store' }

-- `consumers`: how many readers are attached, with those that have gone pruned.
pub retain_alive : Store → List ℕ → List ℕ
retain_alive store [] = []
retain_alive store (id ∷ ids) = elim (store id) [
  | none ↦ retain_alive store ids
  | some _ ↦ id ∷ retain_alive store ids
]

pub consumers : Fanout → Fanout × ℕ
consumers f =
    let kept = retain_alive f.store f.consumers in (record f { consumers = kept }, length kept)

pub close_all : List ℕ → Store → Store
close_all [] store = store
close_all (id ∷ ids) store = elim (store id) [
  | none ↦ close_all ids store
  | some queue ↦ close_all ids (update store id (some (record queue { closed = true })))
]

pub close : Fanout → Fanout
close f = record f { consumers = []; store = close_all f.consumers f.store }

-- What one look of `Consumer::next` at its queue finds: `pending` goes on waiting.
pub data Next : Type 0 where
  ready : Chunk → Next
  finished : Next
  pending : Next

pub take_next : Queue → Queue × Next
take_next queue = elim queue.chunks [
  | [] ↦ (queue, if queue.closed then finished else pending)
  | c ∷ rest ↦ (record queue { chunks = rest; seeded = queue.seeded - 1 }, ready c)
]

-- A reader that holds the consumer `id`; a dropped consumer has no reader.
pub next : Fanout → ℕ → Fanout × Next
next f id = elim (f.store id) [
  | none ↦ (f, pending)
  | some queue ↦
      let (queue', result) = take_next queue in
      (record f { store = update f.store id (some queue') }, result)
]

-- Dropping a `Consumer` frees its queue.
pub detach : Fanout → ℕ → Fanout
detach f id = record f { store = update f.store id none }
