-- ===== src/Adpcm/Pcm.antt =====
-- Every block that is long enough is decoded, two samples to a byte, and the samples have 16 bits.
use neolink.Base.{
  ℕ, zero, suc, ◌+◌, ◌-◌, ◌*◌, ◌≡◌, ◌≤◌, ◌<◌, refl, ap, arith, List, [], ◌∷◌, length, drop,
  get_elem?, Option, some, false, ltb, leb, length-drop, All, if-cases,
}
use neolink.Base.Int.{ℤ, pos, negsuc, neg, clamp, IsI16}
use neolink.Base.Bits.{bit_and_nibble}
use neolink.Adpcm.{
  new_ima, Predictor, clamp_index, scaled, raw_sample, sample_of, predict, decode_nibble,
  decode_nibbles, nibbles_of, from_byte, decode, decoded, unsigned, predictor_of,
}

get_elem?-some {ℓ} :
    {A : Type ℓ} (l : List A) (i : ℕ) → i < length l → (a : A) × (get_elem? l i ≡ some a)
get_elem?-some [] i h = absurd (omega arith)
get_elem?-some (x ∷ l) zero h = (x, refl)
get_elem?-some (x ∷ l) (suc i) h = get_elem?-some l i (omega arith)

clamp_index-le : (most : ℕ) (i : ℤ) → clamp_index most i ≤ most
clamp_index-le most (pos n) = ground arith
clamp_index-le most (negsuc n) = omega arith

clamp-IsI16 : (i : ℤ) → IsI16 (clamp 32768 32767 i)
clamp-IsI16 (pos n) =
    if-cases IsI16 (ltb 32767 n) (pos 32767) (pos n) (λ e. omega arith) (λ e. ground arith)
clamp-IsI16 (negsuc n) =
    if-cases IsI16 (ltb 32768 (n + 1)) (negsuc 32767) (negsuc n) (λ e. omega arith)
      (λ e. ground arith)

neg-IsI16 : (k : ℕ) → k ≤ 32768 → IsI16 (neg k)
neg-IsI16 zero h = omega arith
neg-IsI16 (suc k) h = omega arith

scaled-IsI16 : (i : ℤ) → IsI16 i → IsI16 (scaled 32768 i)
scaled-IsI16 (pos n) h = omega arith
scaled-IsI16 (negsuc n) h = neg-IsI16 _ (omega arith)

index_within : (i : ℕ) → i ≤ 88 → i < length new_ima.steps
unfolding new_ima
index_within i h = omega arith

nibble_within : (nibble : ℕ) → unsigned nibble < length new_ima.changes
unfolding new_ima
nibble_within nibble = omega (arith, bit_and_nibble nibble)

-- A result that is there, with a sample of 16 bits.
abbrev GivesSample : Option (ℤ × Predictor) → Type 0
GivesSample r = (s : ℤ) × (p : Predictor) × (r ≡ some (s, p)) × IsI16 s

predict-GivesSample :
    (p : Predictor) (index nibble step : ℕ) (change : ℤ)
    → GivesSample (some (predict new_ima p index nibble step change))
unfolding predict new_ima
predict-GivesSample p index nibble step change =
    let raw = raw_sample p.last_output step nibble in
    (_, _, refl, scaled-IsI16 (sample_of new_ima raw) (clamp-IsI16 raw))

decode_nibble-GivesSample :
    (p : Predictor) (nibble : ℕ) → GivesSample (decode_nibble new_ima p nibble)
unfolding decode_nibble new_ima
decode_nibble-GivesSample p nibble =
    let index = clamp_index 88 p.step_index in
    let (step, e) =
      get_elem?-some new_ima.steps index (index_within index (clamp_index-le 88 p.step_index)) in
    let (change, f) = get_elem?-some new_ima.changes (unsigned nibble) (nibble_within nibble) in
    rw (e, f) (predict-GivesSample p index (unsigned nibble) step change)

-- As many samples as nibbles, each of 16 bits.
abbrev GivesSamples : Option (List ℤ) → ℕ → Type 0
GivesSamples r count = (l : List ℤ) × (r ≡ some l) × (length l ≡ count) × All IsI16 l

decode_nibbles-GivesSamples :
    (p : Predictor) (nibbles : List ℕ)
    → GivesSamples (decode_nibbles new_ima p nibbles) (length nibbles)
unfolding decode_nibbles
decode_nibbles-GivesSamples p [] = ([], refl, refl, tt)
decode_nibbles-GivesSamples p (nibble ∷ nibbles) =
    let (sample, p', e, i) = decode_nibble-GivesSample p nibble in
    let (samples, f, n, is) = decode_nibbles-GivesSamples p' nibbles in
    (sample ∷ samples, rw (e, f) refl, ap suc n, (i, is))

length-nibbles_of : (b : List ℕ) → length (nibbles_of b) ≡ 2 * length b
unfolding nibbles_of from_byte
length-nibbles_of [] = refl
length-nibbles_of (x ∷ b) = omega (arith, length-nibbles_of b)

-- A block of more than four bytes is decoded, into two samples of 16 bits for each byte after the
-- first four: no index ever lies outside its table.
pub decode_pcm :
    (block : List ℕ)
    → 4 < length block
    → (samples : List ℤ) × (decode block ≡ decoded samples)
      × (length samples ≡ 2 * (length block - 4))
      × All IsI16 samples
unfolding decode
decode_pcm block h =
    let (samples, e, n, is) =
      decode_nibbles-GivesSamples (predictor_of block) (nibbles_of (drop 4 block)) in
    let long : leb (length block) 4 ≡ false = ground arith in
    (
      samples,
      rw (long, e) refl,
      omega (arith, n, length-nibbles_of (drop 4 block), length-drop 4 block),
      is,
    )
