-- ===== src/Pump/Settled.antt =====
-- `learn` of src/stream/pump.rs comes to an end.
use neolink.Base.{ℕ, ◌≡◌, Option, some}
use neolink.Media.Model.{BcMedia}
use neolink.Pump.{Learned, Outcome, learned}

-- A frame that arrives at a time.
abbrev pub sent : ℕ × BcMedia → ℕ × Option BcMedia
sent (t, f) = (t, some f)

abbrev pub frame_of : ℕ × BcMedia → BcMedia
frame_of (t, f) = f

abbrev Learns : Outcome → Type 0
Learns o = (l : Learned) × (o ≡ learned l)
