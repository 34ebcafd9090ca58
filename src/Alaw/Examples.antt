-- ===== src/Alaw/Examples.antt =====
-- Samples at concrete values.
use neolink.Base.{◌≡◌, refl, arith, [], ◌∷◌, false}
use neolink.Base.Int.{pos, negsuc}
use neolink.Alaw.{from_pcm, encode_sample, magnitude}
use neolink.Alaw.Decode.{decode_sample, decode_sample-encode_sample}
use neolink.Alaw.Quantise.{IsNear}

-- Silence, and the extremes.
encoded : from_pcm (pos 0 ∷ pos 32767 ∷ negsuc 32767 ∷ []) ≡ 0xd5 ∷ 0xaa ∷ 0x2a ∷ []
unfolding from_pcm encode_sample magnitude
encoded = refl

decode_sample-encode_sample_example :
    ((decode_sample (encode_sample (negsuc 1000))).0 ≡ false)
    × IsNear (decode_sample (encode_sample (negsuc 1000))).1 1000
decode_sample-encode_sample_example = decode_sample-encode_sample (negsuc 1000) (omega arith)
