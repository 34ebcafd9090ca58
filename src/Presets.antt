-- ===== src/Presets.antt =====
-- The slots for PTZ presets of src/onvif/services/ptz.rs.
pub mod Slots
mod Examples
use neolink.Base.{
  ℕ, zero, suc, ◌+◌, ◌==◌, Bool, true, false, not, ◌&&◌, ◌||◌, Option, some, none, List, [], ◌∷◌,
  if◌then◌else◌,
}

abbrev pub max_presets : ℕ
max_presets = 64

abbrev pub home_preset_id : ℕ
home_preset_id = 0

abbrev pub contains : List ℕ → ℕ → Bool
contains [] id = false
contains (x ∷ xs) id = x == id || contains xs id

-- The first of `n` ids from `id` on that is neither home nor used.
unfoldable pub find_free : List ℕ → ℕ → ℕ → Option ℕ
find_free used zero id = none
find_free used (suc n) id =
    let later = find_free used n (id + 1) in
    if not (id == home_preset_id) && not (contains used id) then some id else later

abbrev pub or_home : List ℕ → Option ℕ → Option ℕ
or_home used (some id) = some id
or_home used none = if contains used home_preset_id then none else some home_preset_id

unfoldable pub pick_free_preset_id : List ℕ → Option ℕ
pick_free_preset_id used = or_home used (find_free used max_presets 0)

-- `Result<u8, FaultBody>`
pub data Allocated : Type 0 where
  slot : ℕ → Allocated
  too_many_presets : Allocated
  other_fault : Allocated

abbrev pub of_pick : Option ℕ → Allocated
of_pick (some id) = slot id
of_pick none = too_many_presets

-- The ids that the camera lists, or none where asking it fails.
unfoldable pub allocate_preset_id : Option (List ℕ) → Allocated
allocate_preset_id none = other_fault
allocate_preset_id (some presets) = of_pick (pick_free_preset_id presets)
