-- ===== src/Transport/Latency.antt =====
-- `AckLatency`: the latency shown to the camera, as the official client computes it.
use neolink.Base.{
  ℕ, ◌+◌, ◌-◌, ◌*◌, ◌/◌, ◌%◌, ◌≤◌, ◌<◌, ◌≡◌, List, [], ◌∷◌, ◌++◌, length, Option, none, some,
  if◌then◌else◌, ltb,
}
use neolink.Base.Words.{u32}

-- An `Instant` is a number of nanoseconds.
pub record AckLatency : Type 0 where
  pub current_values : List ℕ
  pub last_recieve_time : Option ℕ
  pub display_value : ℕ
  pub last_display_time : Option ℕ

abbrev pub second : ℕ
second = 1_000_000_000

unfoldable pub get_value : AckLatency → ℕ
get_value l = l.display_value

-- The fold over the values, `count` being their number as a `u32`.
unfoldable pub average : ℕ → List ℕ → ℕ → ℕ
average count [] acc = acc
average count (v ∷ vs) acc = average count vs (u32 (acc + v / count))

-- `as_micros() as u32` of the time that has passed.
unfoldable pub micros : ℕ → ℕ → ℕ
micros now last = u32 ((now - last) / 1000)

-- The gap since the last acknowledgement, if there was one.
unfoldable pub receive_values : ℕ → Option ℕ → List ℕ → List ℕ
receive_values now none values = values
receive_values now (some last) values = values ++ (micros now last ∷ [])

-- What is shown changes once a second.
unfoldable pub update_display : ℕ → Option ℕ → ℕ → List ℕ → AckLatency
update_display now none display values = record {
  current_values = values;
  last_recieve_time = some now;
  display_value = 0;
  last_display_time = some now;
}
update_display now (some last) display values =
    if ltb second (now - last)
    then record {
      current_values = [];
      last_recieve_time = some now;
      display_value = average (u32 (length values)) values 0;
      last_display_time = some now;
    }
    else record {
      current_values = values;
      last_recieve_time = some now;
      display_value = display;
      last_display_time = some last;
    }

unfoldable pub feed_ack : ℕ → AckLatency → AckLatency
feed_ack now l =
    update_display now l.last_display_time l.display_value
      (receive_values now l.last_recieve_time l.current_values)

-- The sum of the gaps, and that of their parts, each the whole part of a gap over `c`.
abbrev pub total : List ℕ → ℕ
total [] = 0
total (v ∷ vs) = v + total vs

abbrev parts : ℕ → List ℕ → ℕ
parts c [] = 0
parts c (v ∷ vs) = v / c + parts c vs

-- The mean of the gaps, rounded down for each of them.
pub record IsMean (shown : ℕ) (gaps : List ℕ) : Type 0 where
  pub not_more : shown * length gaps ≤ total gaps
  pub not_less : total gaps ≤ shown * length gaps + length gaps * length gaps

-- The gaps since the latency was last shown, in microseconds as 32 bits, with the one that ends now.
abbrev pub gaps : ℕ → AckLatency → List ℕ
gaps now l = elim l.last_recieve_time [
  | none ↦ l.current_values
  | some last ↦ l.current_values ++ ((now - last) / 1000 % 4294967296 ∷ [])
]

-- What an acknowledgement does, by the time that has passed since the latency was last shown.
pub data Fed (now : ℕ) (l l' : AckLatency) : Type 0 where
  first :
      l.last_display_time ≡ none
      → get_value l' ≡ 0
      → l'.current_values ≡ gaps now l
      → l'.last_display_time ≡ some now
      → Fed now l l'
  held :
      (last : ℕ)
      → l.last_display_time ≡ some last
      → now - last ≤ 1_000_000_000
      → get_value l' ≡ get_value l
      → l'.current_values ≡ gaps now l
      → l'.last_display_time ≡ some last
      → Fed now l l'
  shown :
      (last : ℕ)
      → l.last_display_time ≡ some last
      → 1_000_000_000 < now - last
      → IsMean (get_value l') (gaps now l)
      → l'.current_values ≡ []
      → l'.last_display_time ≡ some now
      → Fed now l l'
