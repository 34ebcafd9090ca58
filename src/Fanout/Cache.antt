-- ===== src/Fanout/Cache.antt =====
-- The cached GOP: bounded, and always playable from its first chunk.
use neolink.Base.{
  ℕ, ◌+◌, ◌≤◌, ◌≡◌, refl, arith, Bool, true, false, not, List, [], ◌∷◌, ◌++◌, length, Bool-cases,
  inl, inr,
}
use neolink.Fanout.{Chunk, Gop, cache, gop_cache_limit, seed_queue, is_empty}
use neolink.Fanout.Delivery.{
  Follows, nothing, loose, skip, restart, go_on, rev_onto, rev_onto-push, nothing_yet, Playable,
}

abbrev pub byte_count : List Chunk → ℕ
byte_count [] = 0
byte_count (c ∷ cs) = length c.bytes + byte_count cs

byte_count-push :
    (xs : List Chunk) (c : Chunk) → byte_count (xs ++ (c ∷ [])) ≡ byte_count xs + length c.bytes
byte_count-push [] c = omega arith
byte_count-push (x ∷ xs) c = omega (arith, byte_count-push xs c)

-- The counter is the size of what is held, and that is bounded.
pub record IsBounded (gop : Gop) : Type 0 where
  pub counted : gop.bytes ≡ byte_count gop.chunks
  pub bounded : gop.bytes ≤ gop_cache_limit

pub cache-IsBounded : (gop : Gop) (c : Chunk) → IsBounded gop → IsBounded (cache gop c)
unfolding cache
cache-IsBounded gop c b = ground (arith, byte_count-push gop.chunks c)

-- What is held is the run of the stream since its last keyframe; nothing is held of a GOP that
-- has grown too large.
abbrev pub IsCurrent : List Chunk → Gop → Type 0
IsCurrent stream gop = gop.whole ≡ true → Follows stream (rev_onto gop.chunks []) true

data CacheFate (gop : Gop) (c : Chunk) (gop' : Gop) : Type 0 where
  not_whole : gop'.whole ≡ false → CacheFate gop c gop'
  fresh : gop'.chunks ≡ c ∷ [] → c.resync_point ≡ true → CacheFate gop c gop'
  longer : gop'.chunks ≡ gop.chunks ++ (c ∷ []) → gop.whole ≡ true → CacheFate gop c gop'

cache-CacheFate : (gop : Gop) (c : Chunk) → CacheFate gop c (cache gop c)
unfolding cache
cache-CacheFate gop c = elim (Bool-cases (cache gop c).whole) [
  | inr e ↦ not_whole e
  | inl e ↦ elim (Bool-cases c.resync_point) [
    | inl r ↦ fresh (ground arith) r
    | inr r ↦ longer (ground arith) (ground arith)
  ]
]

pub cache-IsCurrent :
    (stream : List Chunk) (gop : Gop) (c : Chunk)
    → IsCurrent stream gop
    → IsCurrent (c ∷ stream) (cache gop c)
cache-IsCurrent stream gop c h = go (cache gop c) (cache-CacheFate gop c)
  where
    go : (gop' : Gop) → CacheFate gop c gop' → IsCurrent (c ∷ stream) gop'
    go gop' (not_whole e) w = cc
    go gop' (fresh e r) w = rw e (restart c r (nothing_yet stream))
    go gop' (longer e v) w = rw (e, rev_onto-push gop.chunks c []) (go_on c (h v))

-- A tight run is not empty.
tight_nonempty : {h o : List Chunk} {b : Bool} → Follows h o b → o ≡ [] → b ≡ true → ⊥
tight_nonempty nothing e t = cc
tight_nonempty (skip c d) e t = cc
tight_nonempty (restart c r d) e t = cc
tight_nonempty (go_on c d) e t = cc
tight_nonempty (loose d) e t = cc

from_first :
    (stream xs : List Chunk)
    → Follows stream (rev_onto xs []) true
    → Follows stream (rev_onto xs []) (not (is_empty xs))
from_first stream [] d = absurd (tight_nonempty d refl refl)
from_first stream (x ∷ xs) d = d

-- A new reader can play from the first chunk that it is handed.
pub seed_queue-Playable :
    (stream : List Chunk) (gop : Gop) → IsCurrent stream gop → Playable stream [] (seed_queue gop)
unfolding seed_queue
seed_queue-Playable stream gop h = elim (Bool-cases gop.whole) [
  | inl w ↦ rw w (from_first stream gop.chunks (h w))
  | inr w ↦ rw w (nothing_yet stream)
]
