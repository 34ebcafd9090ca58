-- ===== src/Alaw/Decode.antt =====
-- The decoder that the tests of src/audio/alaw.rs hold the encoder against, G.711's
-- `alaw2linear`, and how near it comes to the sample.
use neolink.Base.{
  ℕ, suc, ◌+◌, ◌/◌, ◌%◌, ◌^◌, ◌≡◌, ◌<◌, refl, ◌∙◌, arith, List, [], ◌∷◌, length, bit_and, bit_xor,
  if◌then◌else◌, Bool, true, false, not, ◌==◌, Option, none, some, position, leb,
}
use neolink.Base.Bits.{
  bit_and_nibble, bit_and_exponent, bit_and_sign, bit_xor_assoc, bit_xor_high, bit_xor_cancel,
}
use mathlib.Core.Option
use neolink.Base.Int.{ℤ, pos, negsuc}
use neolink.Alaw.{magnitude, mask, folded, encode_sample, magnitude_in, shift, segment_ends}
use neolink.Alaw.Quantise.{fields, expand, expand_in, IsNear, magnitude-IsNear}

-- The sign, true for a sample of 0 or more, and the magnitude.
unfoldable pub decode_sample : ℕ → Bool × ℕ
decode_sample byte =
    let b = bit_xor byte 0x55 in
    (not (bit_and b 0x80 == 0), expand_in (bit_and b 0x70 / 16) (bit_and b 0x0f))

abbrev pub is_positive : ℤ → Bool
is_positive (pos n) = true
is_positive (negsuc n) = false

-- The byte without the inversion.
uninverted :
    (sample : ℤ) (v : ℕ)
    → v < 128
    → bit_xor (bit_xor v (mask sample)) 0x55 ≡ (if is_positive sample then v + 128 else v)
uninverted (pos n) v h = bit_xor_assoc v 0xd5 0x55 ∙ bit_xor_high 7 v h
uninverted (negsuc n) v h = bit_xor_cancel v 0x55

-- A position is within the list.
within :
    (b : Bool) (o : Option ℕ) (len k : ℕ)
    → ((j : ℕ) → o ≡ some j → j < len)
    → (elim b [ true ↦ some 0 | false ↦ Option.map suc o ]) ≡ some k
    → k < suc len
within true o len k h e = let z : 0 ≡ k = cc e in omega arith
within false none len k h e = cc e
within false (some j) len k h e = let z : suc j ≡ k = cc e in omega (arith, h j refl)

position-lt : (p : ℕ → Bool) (l : List ℕ) (k : ℕ) → position p l ≡ some k → k < length l
position-lt p [] k e = cc e
position-lt p (x ∷ l) k e = within (p x) (position p l) (length l) k (position-lt p l) e

magnitude_in-lt :
    (pcm : ℕ) (o : Option ℕ) → ((k : ℕ) → o ≡ some k → k < 8) → magnitude_in pcm o < 128
magnitude_in-lt pcm none h = omega arith
magnitude_in-lt pcm (some k) h = omega (arith, fields k (pcm / 2 ^ shift k) (h k refl), h k refl)

magnitude_lt : (pcm : ℕ) → magnitude pcm < 128
unfolding magnitude
magnitude_lt pcm = magnitude_in-lt pcm _ (position-lt (λ end. leb pcm end) segment_ends)

decode_positive :
    (v : ℕ)
    → v < 128
    → (byte : ℕ) → bit_xor byte 0x55 ≡ v + 128
    → decode_sample byte ≡ (true, expand v)
unfolding decode_sample expand
decode_positive v h byte e =
    let sign : bit_and (v + 128) 0x80 ≡ 128 = omega (arith, bit_and_sign (v + 128)) in
    let exponent : bit_and (v + 128) 0x70 / 16 ≡ v / 16 =
      omega (arith, bit_and_exponent (v + 128)) in
    let low : bit_and (v + 128) 0x0f ≡ v % 16 = omega (arith, bit_and_nibble (v + 128)) in
    rw (e, sign, exponent, low)

decode_negative :
    (v : ℕ) → v < 128 → (byte : ℕ) → bit_xor byte 0x55 ≡ v → decode_sample byte ≡ (false, expand v)
unfolding decode_sample expand
decode_negative v h byte e =
    let sign : bit_and v 0x80 ≡ 0 = omega (arith, bit_and_sign v) in
    let exponent : bit_and v 0x70 / 16 ≡ v / 16 = omega (arith, bit_and_exponent v) in
    let low : bit_and v 0x0f ≡ v % 16 = omega (arith, bit_and_nibble v) in
    rw (e, sign, exponent, low)

-- The decoder gives a sample of 16 bits back with its sign, and with its magnitude up to a
-- thirty-second part and 8.
pub decode_sample-encode_sample :
    (sample : ℤ)
    → folded sample < 32768
    → ((decode_sample (encode_sample sample)).0 ≡ is_positive sample)
      × IsNear (decode_sample (encode_sample sample)).1 (folded sample)
unfolding encode_sample
decode_sample-encode_sample (pos n) h =
    rw
      (decode_positive (magnitude (n / 8)) (magnitude_lt (n / 8)) _
        (uninverted (pos n) _ (magnitude_lt (n / 8))))
      (refl, magnitude-IsNear n h)
decode_sample-encode_sample (negsuc n) h =
    rw
      (decode_negative (magnitude (n / 8)) (magnitude_lt (n / 8)) _
        (uninverted (negsuc n) _ (magnitude_lt (n / 8))))
      (refl, magnitude-IsNear n h)
