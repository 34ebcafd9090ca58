-- ===== src/Adpcm/Examples.antt =====
-- A block of ADPCM at concrete bytes.
use neolink.Base.{ℕ, ◌*◌, ◌-◌, ◌≡◌, refl, arith, List, [], ◌∷◌, length, All}
use neolink.Base.Int.{ℤ, pos, negsuc, IsI16}
use neolink.Adpcm.{
  decode, decoded, too_short, decode_nibbles, decode_nibble, nibbles_of, from_byte, predict,
  diff_of, new_ima,
}
use neolink.Adpcm.Pcm.{decode_pcm}

abbrev block : List ℕ
block = 0 ∷ 0 ∷ 96 ∷ 234 ∷ 0x77 ∷ 0x8f ∷ []

-- The index of the header, 60000, is taken for 88.
loud : decode block ≡ decoded (pos 32767 ∷ pos 32767 ∷ pos 28672 ∷ negsuc 27190 ∷ [])
unfolding decode decode_nibbles decode_nibble nibbles_of from_byte predict diff_of new_ima
loud = refl

short : decode (1 ∷ 2 ∷ 3 ∷ 4 ∷ []) ≡ too_short
unfolding decode
short = refl

decode_pcm_example :
    (samples : List ℤ) × (decode block ≡ decoded samples)
    × (length samples ≡ 2 * (length block - 4))
    × All IsI16 samples
decode_pcm_example = decode_pcm block (omega arith)
