-- ===== src/Fanout/Delivery.antt =====
-- One queue: what a push leaves in it, and what its reader is handed.
use neolink.Base.{
  Bool-cases, inl, inr, ◌⊎◌, ℕ, ◌-◌, ◌≡◌, refl, arith, Bool, true, false, not, ◌&&◌, Option, none,
  some, List, [], ◌∷◌, ◌++◌, get_elem?, if◌then◌else◌,
}
use neolink.Fanout.{
  Chunk, Queue, behind, deliver, is_over, take_next, Next, ready, finished, pending,
}

-- `Follows stream out tight`: read newest first, `out` is made of runs of consecutive chunks of
-- `stream`, each of which begins at a resync point. `tight` says that the last run has reached the
-- end of the stream.
pub data Follows : List Chunk → List Chunk → Bool → Type 0 where
  nothing : Follows [] [] false
  skip : {h o : List Chunk} {b : Bool} (c : Chunk) → Follows h o b → Follows (c ∷ h) o false
  restart :
      {h o : List Chunk} {b : Bool} (c : Chunk)
      → c.resync_point ≡ true
      → Follows h o b
      → Follows (c ∷ h) (c ∷ o) true
  go_on : {h o : List Chunk} (c : Chunk) → Follows h o true → Follows (c ∷ h) (c ∷ o) true
  loose : {h o : List Chunk} → Follows h o true → Follows h o false

-- `xs`, oldest first, put behind `acc`, newest first.
abbrev pub rev_onto : List Chunk → List Chunk → List Chunk
rev_onto [] acc = acc
rev_onto (x ∷ xs) acc = rev_onto xs (x ∷ acc)

pub rev_onto-push :
    (xs : List Chunk) (c : Chunk) (acc : List Chunk)
    → rev_onto (xs ++ (c ∷ [])) acc ≡ c ∷ rev_onto xs acc
rev_onto-push [] c acc = refl
rev_onto-push (x ∷ xs) c acc = rev_onto-push xs c (x ∷ acc)

pub loosen : {h o : List Chunk} (b : Bool) → Follows h o b → Follows h o false
loosen true d = loose d
loosen false d = d

pub nothing_yet : (h : List Chunk) → Follows h [] false
nothing_yet [] = nothing
nothing_yet (c ∷ h) = skip c (nothing_yet h)

abbrev tail : List Chunk → List Chunk
tail [] = []
tail (x ∷ xs) = xs

drop_newest : {h o : List Chunk} {b : Bool} → Follows h o b → Follows h (tail o) false
drop_newest nothing = nothing
drop_newest (skip c d) = skip c (drop_newest d)
drop_newest (restart c r d) = skip c d
drop_newest (go_on c d) = skip c d
drop_newest (loose d) = drop_newest d

-- Throwing a whole backlog away leaves what was read before it.
pub drop_backlog_Follows :
    {h : List Chunk} (xs acc : List Chunk) (b : Bool)
    → Follows h (rev_onto xs acc) b
    → Follows h acc false
drop_backlog_Follows [] acc b d = loosen b d
drop_backlog_Follows (x ∷ xs) acc b d = drop_newest (drop_backlog_Follows xs (x ∷ acc) b d)

-- What a reader has been handed, newest first, with what its queue holds.
abbrev pub Playable : List Chunk → List Chunk → Queue → Type 0
Playable stream handed q = Follows stream (rev_onto q.chunks handed) (not q.awaiting_resync)

-- The four things that a push can do to a queue.
data Fate (c : Chunk) (q q' : Queue) : Type 0 where
  ignored : q' ≡ q → q.awaiting_resync ≡ true → Fate c q q'
  restarted : c.resync_point ≡ true → q'.chunks ≡ c ∷ [] → q'.awaiting_resync ≡ false → Fate c q q'
  emptied : q'.chunks ≡ [] → q'.awaiting_resync ≡ true → Fate c q q'
  appended :
      q'.chunks ≡ q.chunks ++ (c ∷ [])
      → q'.awaiting_resync ≡ false
      → (q.awaiting_resync ≡ false) ⊎ (c.resync_point ≡ true)
      → Fate c q q'

deliver-Fate : (limit : Option ℕ) (c : Chunk) (q : Queue) → Fate c q (deliver limit c q)
unfolding deliver
deliver-Fate limit c q = elim (Bool-cases q.awaiting_resync) [
  | inl w ↦ elim (Bool-cases c.resync_point) [
    | inl r ↦ elim (Bool-cases (is_over limit (behind (record q { awaiting_resync = false }) c))) [
      | inl o ↦ restarted r (ground arith) (ground arith)
      | inr o ↦ appended (ground arith) (ground arith) (inr r)
    ]
    | inr r ↦ ignored (ground arith) w
  ]
  | inr w ↦ elim (Bool-cases (is_over limit (behind (record q { awaiting_resync = false }) c))) [
    | inl o ↦ elim (Bool-cases c.resync_point) [
      | inl r ↦ restarted r (ground arith) (ground arith)
      | inr r ↦ emptied (ground arith) (ground arith)
    ]
    | inr o ↦ appended (ground arith) (ground arith) (inl w)
  ]
]

pub deliver-Playable :
    (limit : Option ℕ) (c : Chunk) (q : Queue) (stream handed : List Chunk)
    → Playable stream handed q
    → Playable (c ∷ stream) handed (deliver limit c q)
deliver-Playable limit c q stream handed p = go (deliver limit c q) (deliver-Fate limit c q)
  where
    go : (q' : Queue) → Fate c q q' → Playable (c ∷ stream) handed q'
    go q' (ignored same w) = rw (same, w) (skip c p)
    go q' (restarted r e w) = rw (e, w) (restart c r (drop_backlog_Follows q.chunks handed _ p))
    go q' (emptied e w) = rw (e, w) (skip c (drop_backlog_Follows q.chunks handed _ p))
    go q' (appended e w (inl v)) = rw (e, w, rev_onto-push q.chunks c handed) (go_on c (rw v at p))
    go q' (appended e w (inr r)) = rw (e, w, rev_onto-push q.chunks c handed) (restart c r p)

-- What the reader has been handed after one look at its queue.
abbrev pub hand_over : Next → List Chunk → List Chunk
hand_over (ready c) handed = c ∷ handed
hand_over finished handed = handed
hand_over pending handed = handed

-- The clause on the chunks of the queue, its other fields given one by one.
take_fields :
    (chunks : List Chunk) (w : Bool) (n : ℕ) (d : Bool) (k : ℕ) (stream handed : List Chunk)
    (b : Bool)
    → let q : Queue = record {
      chunks = chunks;
      awaiting_resync = w;
      seeded = n;
      closed = d;
      overruns = k;
    } in
      Follows stream (rev_onto q.chunks handed) b
      → Follows stream (rev_onto (take_next q).0.chunks (hand_over (take_next q).1 handed)) b
        × ((take_next q).0.awaiting_resync ≡ w)
unfolding take_next
take_fields [] w n true k stream handed b p = (p, refl)
take_fields [] w n false k stream handed b p = (p, refl)
take_fields (c ∷ cs) w n d k stream handed b p = (p, refl)

-- A reader takes the oldest chunk, and the flag of its queue stays as it was.
pub take_next-Follows :
    (q : Queue) (stream handed : List Chunk) (b : Bool)
    → Follows stream (rev_onto q.chunks handed) b
    → Follows stream (rev_onto (take_next q).0.chunks (hand_over (take_next q).1 handed)) b
      × ((take_next q).0.awaiting_resync ≡ q.awaiting_resync)
take_next-Follows q stream handed b p =
    take_fields q.chunks q.awaiting_resync q.seeded q.closed q.overruns stream handed b p

abbrev behind_at : List Chunk → ℕ → Chunk → ℕ
behind_at xs n c = elim (get_elem? xs n) [ none ↦ 0 | some front ↦ c.pts_us - front.pts_us ]

-- With no limit nothing is ever thrown away: a reader that is not waiting for its first keyframe
-- gets every chunk, and so does a waiting one from the keyframe on.
deliver_unlimited :
    (c : Chunk) (q : Queue)
    → ((deliver none c q).overruns ≡ q.overruns)
      × ((deliver none c q).chunks
          ≡ (if q.awaiting_resync && not c.resync_point then q.chunks else q.chunks ++ (c ∷ [])))
      × ((deliver none c q).awaiting_resync ≡ (q.awaiting_resync && not c.resync_point))
unfolding deliver
deliver_unlimited c q = ground arith
