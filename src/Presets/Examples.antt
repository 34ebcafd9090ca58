-- ===== src/Presets/Examples.antt =====
-- A camera with presets at 0, 1 and 3.
use neolink.Base.{ℕ, ◌≡◌, refl, List, [], ◌∷◌, some}
use neolink.Presets.{allocate_preset_id, pick_free_preset_id, find_free, slot}
use neolink.Presets.Slots.{IsAllocated, allocate_preset_id-IsAllocated}

abbrev presets : List ℕ
presets = 0 ∷ 1 ∷ 3 ∷ []

second : allocate_preset_id (some presets) ≡ slot 2
unfolding allocate_preset_id pick_free_preset_id find_free
second = refl

allocate_preset_id-IsAllocated_example : IsAllocated presets (allocate_preset_id (some presets))
allocate_preset_id-IsAllocated_example = allocate_preset_id-IsAllocated presets
