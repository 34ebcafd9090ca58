-- ===== src/Alaw.antt =====
-- src/audio/alaw.rs: G.711 A-law encoding of samples of 16 bits.
mod Quantise
mod Decode
mod Examples
use neolink.Base.{
  ℕ, ◌+◌, ◌*◌, ◌/◌, ◌%◌, ◌^◌, List, [], ◌∷◌, map, Option, none, some, position, leb, ltb, bit_and,
  bit_or, bit_xor, if◌then◌else◌,
}
use neolink.Base.Words.{Bytes, u8}
use neolink.Base.Int.{ℤ, pos, negsuc}

abbrev pub segment_ends : List ℕ
segment_ends = 0x1f ∷ 0x3f ∷ 0x7f ∷ 0xff ∷ 0x1ff ∷ 0x3ff ∷ 0x7ff ∷ 0xfff ∷ []

-- `>> 3`, which rounds down.
abbrev pub shifted : ℤ → ℤ
shifted (pos n) = pos (n / 8)
shifted (negsuc n) = negsuc (n / 8)

-- The negative half folded onto the positive one.
abbrev pub folded : ℤ → ℕ
folded (pos n) = n
folded (negsuc n) = n

abbrev pub mask : ℤ → ℕ
mask (pos n) = 0xd5
mask (negsuc n) = 0x55

abbrev pub shift : ℕ → ℕ
shift segment = if ltb segment 2 then 1 else segment

-- The segment and the position within it; out of range is the largest magnitude.
abbrev pub magnitude_in : ℕ → Option ℕ → ℕ
magnitude_in pcm none = 0x7f
magnitude_in pcm (some segment) =
    bit_or (u8 (segment * 16)) (bit_and (u8 (pcm / 2 ^ shift segment)) 0x0f)

unfoldable pub magnitude : ℕ → ℕ
magnitude pcm = magnitude_in pcm (position (λ end. leb pcm end) segment_ends)

unfoldable pub encode_sample : ℤ → ℕ
unfolding magnitude
encode_sample sample = let pcm = shifted sample in bit_xor (magnitude (folded pcm)) (mask pcm)

unfoldable pub from_pcm : List ℤ → Bytes
unfolding encode_sample
from_pcm samples = map encode_sample samples
