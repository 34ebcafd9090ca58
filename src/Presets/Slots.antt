-- ===== src/Presets/Slots.antt =====
-- Which slot a preset without a name of its own is given: src/onvif/services/ptz.rs.
use neolink.Base.{
  ℕ, zero, suc, ◌+◌, ◌<◌, ◌≤◌, ◌≡◌, ◌⊎◌, inl, inr, sym, subst, arith, ◌==◌, true, false, not, ◌&&◌,
  Option, some, none, List, if-cases, Bool-cases,
}
use neolink.Presets.{
  contains, find_free, or_home, pick_free_preset_id, Allocated, slot, too_many_presets, other_fault,
  of_pick, allocate_preset_id,
}

abbrev IsUsed : List ℕ → ℕ → Type 0
IsUsed used j = contains used j ≡ true

abbrev IsFound : List ℕ → ℕ → ℕ → Option ℕ → Type 0
IsFound used n id none = (j : ℕ) → id ≤ j → j < id + n → 1 ≤ j → IsUsed used j
IsFound used n id (some k) =
    (1 ≤ k)
    × (k < id + n)
    × (contains used k ≡ false)
    × ((j : ℕ) → id ≤ j → j < k → 1 ≤ j → IsUsed used j)

skipped :
    (used : List ℕ) (id j : ℕ)
    → (not (id == 0) && not (contains used id)) ≡ false
    → j ≡ id
    → 1 ≤ j
    → IsUsed used j
skipped used id j e same h = subst (IsUsed used) (sym same) (ground arith)

later-IsFound :
    (used : List ℕ) (n id : ℕ) (o : Option ℕ)
    → (not (id == 0) && not (contains used id)) ≡ false
    → IsFound used n (id + 1) o
    → IsFound used (suc n) id o
later-IsFound used n id none e h = λ j a b c. elim (Bool-cases (j == id)) [
  | inl same ↦ skipped used id j e (ground arith) c
  | inr other ↦ h j (ground arith) (omega (arith, b)) c
]
later-IsFound used n id (some k) e (a, b, f, h) = (
  a,
  omega (arith, b),
  f,
  λ j p q r. elim (Bool-cases (j == id)) [
    | inl same ↦ skipped used id j e (ground arith) r
    | inr other ↦ h j (ground arith) q r
  ],
)

none_between : (id j : ℕ) → id ≤ j → j < id + 0 → ⊥
none_between id j a b = omega arith

not_below : (id j : ℕ) → id ≤ j → j < id → ⊥
not_below id j a b = omega arith

clash : (k : ℕ) → 1 ≤ k → k ≡ 0 → ⊥
clash k a z = omega arith

find_free-IsFound : (used : List ℕ) (n id : ℕ) → IsFound used n id (find_free used n id)
unfolding find_free
find_free-IsFound used zero id = λ j a b c. elim (none_between id j a b) [ ]
find_free-IsFound used (suc n) id =
    if-cases (IsFound used (suc n) id) (not (id == 0) && not (contains used id)) (some id)
      (find_free used n (id + 1))
      (λ e. (ground arith, omega arith, ground arith, λ j p q r. elim (not_below id j p q) [ ]))
      (λ e.
        later-IsFound used n id (find_free used n (id + 1)) e (find_free-IsFound used n (id + 1)))

-- A slot of the table that is free, the home slot only where every other is used, and else the
-- first after it; there is none exactly where all are used.
abbrev pub IsAllocated : List ℕ → Allocated → Type 0
IsAllocated used other_fault = ⊥
IsAllocated used too_many_presets = (j : ℕ) → j < 64 → IsUsed used j
IsAllocated used (slot id) =
    (id < 64)
    × (contains used id ≡ false)
    × ((j : ℕ) → 1 ≤ j → j < 64 → (id ≡ 0) ⊎ (j < id) → IsUsed used j)

or_home-IsAllocated :
    (used : List ℕ) (o : Option ℕ)
    → IsFound used 64 0 o
    → IsAllocated used (of_pick (or_home used o))
or_home-IsAllocated used (some k) (a, b, f, h) = (
  omega (arith, b),
  f,
  λ j p q r. elim r [ inl z ↦ elim (clash k a z) [ ] | inr l ↦ h j (omega arith) l p ],
)
or_home-IsAllocated used none h =
    if-cases (λ (o : Option ℕ). IsAllocated used (of_pick o)) (contains used 0) none (some 0)
      (λ e j l. elim (Bool-cases (j == 0)) [
        | inl z ↦ subst (IsUsed used) (ground arith) e
        | inr p ↦ h j (omega arith) l (ground arith)
      ])
      (λ e. (omega arith, e, λ j p q r. h j (omega arith) q p))

-- A new preset without a name of its own gets a slot below 64 that is not used: the first after the
-- home slot, and that one only where all others are used. It is refused only where all 64 are used.
pub allocate_preset_id-IsAllocated :
    (presets : List ℕ) → IsAllocated presets (allocate_preset_id (some presets))
unfolding allocate_preset_id pick_free_preset_id
allocate_preset_id-IsAllocated presets =
    or_home-IsAllocated presets (find_free presets 64 0) (find_free-IsFound presets 64 0)
