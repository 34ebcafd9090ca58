-- ===== src/Fanout/Readers.antt =====
-- The store of queues under the number of each consumer, and the list of those attached.
use mathlib.Core.Option
use neolink.Base.{
  ℕ, ◌≡◌, refl, arith, Bool, true, false, ◌&&◌, ◌||◌, Option, none, some, List, [], ◌∷◌, ◌++◌, ◌==◌,
  if◌then◌else◌, Option-cases, inl, inr,
}
use neolink.Fanout.{Chunk, Queue, Store, update, deliver, retain_push, close_all, retain_alive}

abbrev pub mem : ℕ → List ℕ → Bool
mem id [] = false
mem id (x ∷ xs) = id == x || mem id xs

-- No consumer is attached twice.
abbrev pub Distinct : List ℕ → Type 0
Distinct [] = Unit {0}
Distinct (x ∷ xs) = (mem x xs ≡ false) × Distinct xs

abbrev pub is_alive : Option Queue → Bool
is_alive none = false
is_alive (some _) = true

pub update_lem :
    (s : Store) (k : ℕ) (q : Option Queue) (j : ℕ) → update s k q j ≡ (if j == k then q else s j)
unfolding update
update_lem s k q j = refl

-- A push reaches each attached reader that is still there, once, and nobody else.
pub retain_push_store :
    (limit : Option ℕ) (c : Chunk) (ids : List ℕ) (s : Store) (id : ℕ)
    → Distinct ids
    → (retain_push limit c ids s).1 id
      ≡ (if mem id ids then Option.map (deliver limit c) (s id) else s id)
unfolding retain_push
retain_push_store limit c [] s id h = refl
retain_push_store limit c (x ∷ xs) s id (h, hs) = elim (Option-cases (s x)) [
  | inl e ↦ ground (arith, retain_push_store limit c xs s id hs)
  | inr (q, e) ↦ ground (
    arith,
    retain_push_store limit c xs (update s x (some (deliver limit c q))) id hs,
    update_lem s x (some (deliver limit c q)) id,
  )
]

retain_alive-update :
    (ids : List ℕ) (s : Store) (x : ℕ) (q : Option Queue)
    → mem x ids ≡ false
    → retain_alive (update s x q) ids ≡ retain_alive s ids
unfolding retain_alive
retain_alive-update [] s x q h = refl
retain_alive-update (y ∷ ys) s x q h =
    ground (arith, update_lem s x q y, retain_alive-update ys s x q)

-- The list keeps the readers that are still there.
pub retain_push_list :
    (limit : Option ℕ) (c : Chunk) (ids : List ℕ) (s : Store)
    → Distinct ids
    → (retain_push limit c ids s).0 ≡ retain_alive s ids
unfolding retain_push retain_alive
retain_push_list limit c [] s h = refl
retain_push_list limit c (x ∷ xs) s (h, hs) = elim (Option-cases (s x)) [
  | inl e ↦ ground (arith, retain_push_list limit c xs s hs)
  | inr (q, e) ↦ ground (
    arith,
    retain_push_list limit c xs (update s x (some (deliver limit c q))) hs,
    retain_alive-update xs s x (some (deliver limit c q)) h,
  )
]

abbrev pub shut : Queue → Queue
shut queue = record queue { closed = true }

-- Closing marks the queue of each attached reader that is still there.
pub close_all_store :
    (ids : List ℕ) (s : Store) (id : ℕ)
    → Distinct ids
    → close_all ids s id ≡ (if mem id ids then Option.map shut (s id) else s id)
unfolding close_all
close_all_store [] s id h = refl
close_all_store (x ∷ xs) s id (h, hs) = elim (Option-cases (s x)) [
  | inl e ↦ ground (arith, close_all_store xs s id hs)
  | inr (q, e) ↦ ground (
    arith,
    close_all_store xs (update s x (some (shut q))) id hs,
    update_lem s x (some (shut q)) id,
  )
]

pub mem-retain_alive :
    (s : Store) (ids : List ℕ) (id : ℕ)
    → mem id (retain_alive s ids) ≡ (mem id ids && is_alive (s id))
unfolding retain_alive
mem-retain_alive s [] id = refl
mem-retain_alive s (x ∷ xs) id = ground (arith, mem-retain_alive s xs id)

pub retain_alive-Distinct :
    (s : Store) (ids : List ℕ) → Distinct ids → Distinct (retain_alive s ids)
unfolding retain_alive
retain_alive-Distinct s [] h = tt
retain_alive-Distinct s (x ∷ xs) (h, hs) =
    ground (arith, retain_alive-Distinct s xs hs, mem-retain_alive s xs x)

pub mem-append_one : (ids : List ℕ) (n id : ℕ) → mem id (ids ++ (n ∷ [])) ≡ (mem id ids || id == n)
mem-append_one [] n id = ground arith
mem-append_one (x ∷ xs) n id = ground (arith, mem-append_one xs n id)

pub append_one-Distinct :
    (ids : List ℕ) (n : ℕ) → Distinct ids → mem n ids ≡ false → Distinct (ids ++ (n ∷ []))
append_one-Distinct [] n h k = (refl, tt)
append_one-Distinct (x ∷ xs) n (h, hs) k =
    ground (arith, mem-append_one xs n x, append_one-Distinct xs n hs)
