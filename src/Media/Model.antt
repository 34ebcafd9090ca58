-- ===== src/Media/Model.antt =====
-- crates/core/src/bcmedia/model.rs. A release build wraps where a sum or a difference leaves its type.
use neolink.Base.{
  ℕ, ◌+◌, ◌-◌, ◌*◌, ◌/◌, ◌==◌, bit_and, Option, none, some, length, ltb, if◌then◌else◌, get_or, not,
}
use neolink.Base.Words.{Bytes, u32}
use mathlib.Core.Option

abbrev pub magic_header_bcmedia_info_v1 : ℕ
magic_header_bcmedia_info_v1 = 0x3130_3031

pub record BcMediaInfoV1 : Type 0 where
  pub video_width : ℕ
  pub video_height : ℕ
  pub fps : ℕ
  pub start_year : ℕ
  pub start_month : ℕ
  pub start_day : ℕ
  pub start_hour : ℕ
  pub start_min : ℕ
  pub start_seconds : ℕ
  pub end_year : ℕ
  pub end_month : ℕ
  pub end_day : ℕ
  pub end_hour : ℕ
  pub end_min : ℕ
  pub end_seconds : ℕ

abbrev pub magic_header_bcmedia_info_v2 : ℕ
magic_header_bcmedia_info_v2 = 0x3230_3031

pub record BcMediaInfoV2 : Type 0 where
  pub video_width : ℕ
  pub video_height : ℕ
  pub fps : ℕ
  pub start_year : ℕ
  pub start_month : ℕ
  pub start_day : ℕ
  pub start_hour : ℕ
  pub start_min : ℕ
  pub start_seconds : ℕ
  pub end_year : ℕ
  pub end_month : ℕ
  pub end_day : ℕ
  pub end_hour : ℕ
  pub end_min : ℕ
  pub end_seconds : ℕ

abbrev pub magic_header_bcmedia_iframe : ℕ
magic_header_bcmedia_iframe = 0x6364_3030

abbrev pub magic_header_bcmedia_iframe_last : ℕ
magic_header_bcmedia_iframe_last = 0x6364_3039

pub data VideoType : Type 0 where
  h264 h265 : VideoType

pub record BcMediaIframe : Type 0 where
  pub video_type : VideoType
  pub microseconds : ℕ
  pub time : Option ℕ
  pub bytes : Bytes  -- `data`

abbrev pub magic_header_bcmedia_pframe : ℕ
magic_header_bcmedia_pframe = 0x6364_3130

abbrev pub magic_header_bcmedia_pframe_last : ℕ
magic_header_bcmedia_pframe_last = 0x6364_3139

pub record BcMediaPframe : Type 0 where
  pub video_type : VideoType
  pub microseconds : ℕ
  pub bytes : Bytes

abbrev pub magic_header_bcmedia_aac : ℕ
magic_header_bcmedia_aac = 0x6277_3530

pub record BcMediaAac : Type 0 where
  pub bytes : Bytes

abbrev pub magic_header_bcmedia_adpcm : ℕ
magic_header_bcmedia_adpcm = 0x6277_3130

abbrev pub magic_header_bcmedia_adpcm_data : ℕ
magic_header_bcmedia_adpcm_data = 0x100

pub record BcMediaAdpcm : Type 0 where
  pub bytes : Bytes

pub data BcMedia : Type 0 where
  info_v1 : BcMediaInfoV1 → BcMedia
  info_v2 : BcMediaInfoV2 → BcMedia
  iframe : BcMediaIframe → BcMedia
  pframe : BcMediaPframe → BcMedia
  aac : BcMediaAac → BcMedia
  adpcm : BcMediaAdpcm → BcMedia

unfoldable pub sample_frequency : ℕ → Option ℕ
sample_frequency i =
    if i == 0
    then some 96000
    else if i == 1
    then some 88200
    else if i == 2
    then some 64000
    else if i == 3
    then some 48000
    else if i == 4
    then some 44100
    else if i == 5
    then some 32000
    else if i == 6
    then some 24000
    else if i == 7
    then some 22050
    else if i == 8
    then some 16000
    else if i == 9
    then some 12000
    else if i == 10
    then some 11025
    else if i == 11
    then some 8000
    else if i == 12
    then some 7350
    else none

-- `frames * 1024 * 1_000_000 / frequency`, in `u32`.
unfoldable pub samples_duration : ℕ → ℕ → ℕ
samples_duration samples frequency = u32 (samples * 1_000_000) / frequency

-- `BcMediaAac::duration`
unfoldable pub aac_duration : BcMediaAac → Option ℕ
aac_duration a =
    let frames = bit_and (get_or a.bytes 6 0) 3 + 1 in
    if ltb (length a.bytes) 8
    then none
    else if not (get_or a.bytes 0 0 == 255)
    then none
    else if not (bit_and (get_or a.bytes 1 0) 240 == 240)
    then none
    else Option.map (samples_duration (u32 (frames * 1024)))
        (sample_frequency (bit_and (get_or a.bytes 2 0) 60 / 4))

-- `BcMediaAdpcm::block_size`
unfoldable pub block_size : BcMediaAdpcm → ℕ
block_size a = u32 (u32 (length a.bytes) + 4294967296 - 4)

-- `BcMediaAdpcm::duration`
unfoldable pub adpcm_duration : BcMediaAdpcm → Option ℕ
adpcm_duration a = some (samples_duration (u32 (block_size a * 2)) 8000)
