-- ===== src/Adpcm.antt =====
-- src/audio/adpcm.rs: IMA ADPCM blocks as samples of 16 bits. The sums stay within 32 bits.
pub mod Pcm
mod Examples
use neolink.Base.{
  ℕ, zero, suc, ◌+◌, ◌-◌, ◌*◌, ◌/◌, List, [], ◌∷◌, ◌++◌, length, drop, get_or, get_elem?, Option,
  none, some, Bool, true, false, ◌==◌, leb, ltb, bit_and, if◌then◌else◌,
}
use neolink.Base.Words.{Bytes}
use neolink.Base.Int.{ℤ, pos, negsuc, neg, ◌+ℤ◌, ◌-ℤ◌, clamp, i16_of}

pub record AdpcmSetup : Type 0 where
  pub max_step_index : ℕ
  pub steps : List ℕ
  pub max_sample_size : ℕ
  pub changes : List ℤ

-- A nibble with the sign bit clear, then the same with it set.
abbrev half_changes : List ℤ
half_changes = negsuc 0 ∷ negsuc 0 ∷ negsuc 0 ∷ negsuc 0 ∷ pos 2 ∷ pos 4 ∷ pos 6 ∷ pos 8 ∷ []

unfoldable pub new_oki : AdpcmSetup
new_oki = record {
  max_step_index = 48;
  steps =
      16 ∷ 17 ∷ 19 ∷ 21 ∷ 23 ∷ 25 ∷ 28 ∷ 31 ∷ 34 ∷ 37 ∷ 41 ∷ 45 ∷ 50 ∷ 55 ∷ 60 ∷ 66 ∷ 73 ∷ 80 ∷ 88
      ∷ 97 ∷ 107 ∷ 118 ∷ 130 ∷ 143 ∷ 157 ∷ 173 ∷ 190 ∷ 209 ∷ 230 ∷ 253 ∷ 279 ∷ 307 ∷ 337 ∷ 371 ∷ 408
      ∷ 449 ∷ 494 ∷ 544 ∷ 598 ∷ 658 ∷ 724 ∷ 796 ∷ 876 ∷ 963 ∷ 1060 ∷ 1166 ∷ 1282 ∷ 1411 ∷ 1552 ∷ [];
  max_sample_size = 2048;
  changes = half_changes ++ half_changes;
}

unfoldable pub new_ima : AdpcmSetup
new_ima = record {
  max_step_index = 88;
  steps =
      7 ∷ 8 ∷ 9 ∷ 10 ∷ 11 ∷ 12 ∷ 13 ∷ 14 ∷ 16 ∷ 17 ∷ 19 ∷ 21 ∷ 23 ∷ 25 ∷ 28 ∷ 31 ∷ 34 ∷ 37 ∷ 41 ∷ 45
      ∷ 50 ∷ 55 ∷ 60 ∷ 66 ∷ 73 ∷ 80 ∷ 88 ∷ 97 ∷ 107 ∷ 118 ∷ 130 ∷ 143 ∷ 157 ∷ 173 ∷ 190 ∷ 209 ∷ 230
      ∷ 253 ∷ 279 ∷ 307 ∷ 337 ∷ 371 ∷ 408 ∷ 449 ∷ 494 ∷ 544 ∷ 598 ∷ 658 ∷ 724 ∷ 796 ∷ 876 ∷ 963
      ∷ 1060 ∷ 1166 ∷ 1282 ∷ 1411 ∷ 1552 ∷ 1707 ∷ 1878 ∷ 2066 ∷ 2272 ∷ 2499 ∷ 2749 ∷ 3024 ∷ 3327
      ∷ 3660 ∷ 4026 ∷ 4428 ∷ 4871 ∷ 5358 ∷ 5894 ∷ 6484 ∷ 7132 ∷ 7845 ∷ 8630 ∷ 9493 ∷ 10442 ∷ 11487
      ∷ 12635 ∷ 13899 ∷ 15289 ∷ 16818 ∷ 18500 ∷ 20350 ∷ 22385 ∷ 24623 ∷ 27086 ∷ 29794 ∷ 32767 ∷ [];
  max_sample_size = 32768;
  changes = half_changes ++ half_changes;
}

-- `Nibble::unsigned`
abbrev pub unsigned : ℕ → ℕ
unsigned nibble = bit_and nibble 15

-- `Nibble::from_byte`
unfoldable pub from_byte : ℕ → List ℕ
from_byte byte = bit_and byte 240 / 16 ∷ bit_and byte 15 ∷ []

abbrev pub block_header_size : ℕ
block_header_size = 4

pub record Predictor : Type 0 where
  pub last_output : ℤ
  pub step_index : ℤ

abbrev pub clamp_index : ℕ → ℤ → ℕ
clamp_index most (negsuc n) = 0
clamp_index most (pos n) = if ltb most n then most else n

-- The difference that the bits of a nibble stand for.
unfoldable pub diff_of : ℕ → ℕ → ℕ
diff_of step nibble =
    step / 8
    + (if bit_and nibble 4 == 4 then step else 0)
    + (if bit_and nibble 2 == 2 then step / 2 else 0)
    + (if bit_and nibble 1 == 1 then step / 4 else 0)

-- `sample * (i16::MAX as i32) / (context.max_sample_size - 1)`, which rounds towards zero.
abbrev pub scaled : ℕ → ℤ → ℤ
scaled size (pos n) = pos (n * 32767 / (size - 1))
scaled size (negsuc n) = neg ((n + 1) * 32767 / (size - 1))

abbrev pub raw_sample : ℤ → ℕ → ℕ → ℤ
raw_sample last_output step unibble =
    if bit_and unibble 8 == 8
    then last_output -ℤ pos (diff_of step unibble)
    else last_output +ℤ pos (diff_of step unibble)

abbrev pub sample_of : AdpcmSetup → ℤ → ℤ
sample_of context raw = clamp context.max_sample_size (context.max_sample_size - 1) raw

-- One nibble, of a step and a change of the index.
unfoldable pub predict : AdpcmSetup → Predictor → ℕ → ℕ → ℕ → ℤ → ℤ × Predictor
predict context p index unibble step change =
    let sample = sample_of context (raw_sample p.last_output step unibble) in
    (
      scaled context.max_sample_size sample,
      record { last_output = sample; step_index = pos index +ℤ change },
    )

abbrev pub with_tables :
    AdpcmSetup → Predictor → ℕ → ℕ → Option ℕ → Option ℤ → Option (ℤ × Predictor)
with_tables context p index unibble (some step) (some change) =
    some (predict context p index unibble step change)
with_tables context p index unibble _ _ = none

-- The body of the loop; none where an index lies outside its table.
unfoldable pub decode_nibble : AdpcmSetup → Predictor → ℕ → Option (ℤ × Predictor)
decode_nibble context p nibble =
    let unibble = unsigned nibble in
    let index = clamp_index context.max_step_index p.step_index in
    with_tables context p index unibble (get_elem? context.steps index)
      (get_elem? context.changes unibble)

abbrev pub push : ℤ → Option (List ℤ) → Option (List ℤ)
push sample none = none
push sample (some samples) = some (sample ∷ samples)

abbrev pub and_then : Option (ℤ × Predictor) → (Predictor → Option (List ℤ)) → Option (List ℤ)
and_then none next = none
and_then (some (sample, p)) next = push sample (next p)

unfoldable pub decode_nibbles : AdpcmSetup → Predictor → List ℕ → Option (List ℤ)
decode_nibbles context p [] = some []
decode_nibbles context p (nibble ∷ nibbles) =
    and_then (decode_nibble context p nibble) (λ p'. decode_nibbles context p' nibbles)

unfoldable pub nibbles_of : Bytes → List ℕ
unfolding from_byte
nibbles_of [] = []
nibbles_of (b ∷ bs) = from_byte b ++ nibbles_of bs

-- `Result<Vec<i16>>`, and a panic.
pub data Decoded : Type 0 where
  decoded : List ℤ → Decoded
  too_short : Decoded
  panicked : Decoded

abbrev pub of_samples : Option (List ℤ) → Decoded
of_samples none = panicked
of_samples (some samples) = decoded samples

abbrev pub predictor_of : Bytes → Predictor
predictor_of block = record {
  last_output = i16_of (get_or block 0 0 + 256 * get_or block 1 0);
  step_index = pos (get_or block 2 0 + 256 * get_or block 3 0);
}

unfoldable pub decode : Bytes → Decoded
decode block =
    if leb (length block) block_header_size
    then too_short
    else of_samples
        (decode_nibbles new_ima (predictor_of block) (nibbles_of (drop block_header_size block)))
