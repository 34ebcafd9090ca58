-- ===== src/Media/Examples.antt =====
-- Media packets at concrete values.
use neolink.Base.{inl, ◌≡◌, refl, arith, [], ◌∷◌, ◌++◌, length, some, false}
use neolink.Base.Words.{Bytes, le_bytes}
use neolink.Wire.{done, nom, cookie}
use neolink.Media.Model.{
  BcMedia, iframe, pframe, adpcm, h264, h265, BcMediaAdpcm, BcMediaAac, aac_duration,
  sample_frequency, samples_duration,
}
use neolink.Media.Ser.{serialize, pad_size, vid_string, padded, extra_header}
use neolink.Media.De.{deserialize}
use neolink.Media.RoundTrip.{media_deserialize-serialize}
use neolink.Media.Codex.{new, decode, no_packet}
use neolink.Media.Stream.{drain, stream, drain-stream, decode_damaged}
use neolink.Media.Adpcm.{deserialize_adpcm}

abbrev a_keyframe : BcMedia
a_keyframe = iframe (record {
  video_type = h264;
  microseconds = 40_000;
  time = some 1_700_000_000;
  bytes = 0 ∷ 0 ∷ 1 ∷ [];
})

abbrev a_frame : BcMedia
a_frame = pframe (record { video_type = h265; microseconds = 80_000; bytes = 9 ∷ [] })

abbrev a_block : BcMediaAdpcm
a_block = record { bytes = 1 ∷ 2 ∷ 3 ∷ 4 ∷ 5 ∷ 6 ∷ 7 ∷ 8 ∷ 9 ∷ [] }

-- One frame at 16 kHz.
abbrev a_sound : BcMediaAac
a_sound = record { bytes = 255 ∷ 0xf1 ∷ 0x60 ∷ 0 ∷ 0 ∷ 0 ∷ 0xfc ∷ 7 ∷ [] }

sound_plays : aac_duration a_sound ≡ some 64_000
unfolding aac_duration sample_frequency samples_duration
sound_plays = refl

-- A header of 32 bytes, three of data and five of padding.
keyframe_bytes : length (serialize cookie a_keyframe) ≡ 40
unfolding serialize cookie le_bytes pad_size vid_string padded extra_header
keyframe_bytes = refl

media_deserialize-serialize_example :
    deserialize nom (serialize cookie a_keyframe ++ (7 ∷ [])) ≡ done (7 ∷ [], a_keyframe)
media_deserialize-serialize_example =
    media_deserialize-serialize nom cookie a_keyframe (7 ∷ [])
      (omega arith, omega arith, omega arith)

abbrev front : Bytes
front = 0x30 ∷ 0x31 ∷ 0x64 ∷ []

drain-stream_example :
    drain nom 3 (new false) (stream cookie (a_keyframe ∷ a_frame ∷ []) front)
    ≡ record { packets = a_keyframe ∷ a_frame ∷ []; codex = new false; left = front }
unfolding new serialize cookie le_bytes pad_size vid_string padded
drain-stream_example =
    drain-stream nom cookie (new false) (a_keyframe ∷ a_frame ∷ []) a_frame front _ _
      ((omega arith, omega arith, omega arith), ((omega arith, omega arith), tt))
      (omega arith, omega arith) refl

decode_damaged_example :
    decode nom (new false) (1 ∷ 2 ∷ 3 ∷ 4 ∷ 5 ∷ stream cookie (a_keyframe ∷ []) front)
    ≡ (no_packet, new false, [])
unfolding new le_bytes
decode_damaged_example =
    decode_damaged nom cookie (new false) 0x0403_0201 (5 ∷ []) (a_keyframe ∷ []) front (omega arith)
      (record {
        not_info_v1 = omega arith;
        not_info_v2 = omega arith;
        not_iframe = inl (omega arith);
        not_pframe = inl (omega arith);
        not_aac = omega arith;
        not_adpcm = omega arith;
      })

deserialize_adpcm_example :
    deserialize nom (serialize cookie (adpcm a_block) ++ (6 ∷ 6 ∷ 6 ∷ 6 ∷ []))
    ≡ done (0 ∷ 0 ∷ 0 ∷ 0 ∷ 6 ∷ 6 ∷ 6 ∷ 6 ∷ [], adpcm a_block)
deserialize_adpcm_example =
    deserialize_adpcm nom cookie a_block (6 ∷ 6 ∷ 6 ∷ 6 ∷ []) [] (omega arith) refl
