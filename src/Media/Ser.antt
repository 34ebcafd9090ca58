-- ===== src/Media/Ser.antt =====
-- crates/core/src/bcmedia/ser.rs: a media packet as bytes.
use neolink.Base.{ℕ, zero, suc, ◌+◌, ◌-◌, ◌/◌, ◌%◌, [], ◌∷◌, length, Option, none, some, replicate}
use neolink.Base.Words.{Bytes, u16, u32}
use neolink.Wire.{Cookie}
use neolink.Media.Model.{
  BcMedia, info_v1, info_v2, iframe, pframe, aac, adpcm, BcMediaInfoV1, BcMediaInfoV2,
  BcMediaIframe, BcMediaPframe, BcMediaAac, BcMediaAdpcm, VideoType, h264, h265,
  magic_header_bcmedia_info_v1, magic_header_bcmedia_info_v2, magic_header_bcmedia_iframe,
  magic_header_bcmedia_pframe, magic_header_bcmedia_aac, magic_header_bcmedia_adpcm,
  magic_header_bcmedia_adpcm_data,
}

-- The padding of a payload to a multiple of eight.
abbrev pub pad_from : ℕ → ℕ
pad_from zero = 0
pad_from (suc n) = 8 - suc n

unfoldable pub pad_size : ℕ → ℕ
pad_size len = pad_from (len % 8)

-- The text of the video type.
unfoldable pub vid_string : VideoType → Bytes
vid_string h264 = b'H' ∷ b'2' ∷ b'6' ∷ b'4' ∷ []
vid_string h265 = b'H' ∷ b'2' ∷ b'6' ∷ b'5' ∷ []

module _ (c : Cookie) where
  open c use {le_u8, le_u16, le_u32, slice, string, tuple}

  unfoldable pub bcmedia_info_v1 : BcMediaInfoV1 → Bytes
  bcmedia_info_v1 payload = tuple (
      le_u32 magic_header_bcmedia_info_v1
      ∷ le_u32 32
      ∷ le_u32 payload.video_width
      ∷ le_u32 payload.video_height
      ∷ le_u8 0
      ∷ le_u8 payload.fps
      ∷ le_u8 payload.start_year
      ∷ le_u8 payload.start_month
      ∷ le_u8 payload.start_day
      ∷ le_u8 payload.start_hour
      ∷ le_u8 payload.start_min
      ∷ le_u8 payload.start_seconds
      ∷ le_u8 payload.end_year
      ∷ le_u8 payload.end_month
      ∷ le_u8 payload.end_day
      ∷ le_u8 payload.end_hour
      ∷ le_u8 payload.end_min
      ∷ le_u8 payload.end_seconds
      ∷ le_u8 0
      ∷ le_u8 0
      ∷ [])

  unfoldable pub bcmedia_info_v2 : BcMediaInfoV2 → Bytes
  bcmedia_info_v2 payload = tuple (
      le_u32 magic_header_bcmedia_info_v2
      ∷ le_u32 32
      ∷ le_u32 payload.video_width
      ∷ le_u32 payload.video_height
      ∷ le_u8 0
      ∷ le_u8 payload.fps
      ∷ le_u8 payload.start_year
      ∷ le_u8 payload.start_month
      ∷ le_u8 payload.start_day
      ∷ le_u8 payload.start_hour
      ∷ le_u8 payload.start_min
      ∷ le_u8 payload.start_seconds
      ∷ le_u8 payload.end_year
      ∷ le_u8 payload.end_month
      ∷ le_u8 payload.end_day
      ∷ le_u8 payload.end_hour
      ∷ le_u8 payload.end_min
      ∷ le_u8 payload.end_seconds
      ∷ le_u8 0
      ∷ le_u8 0
      ∷ [])

  unfoldable pub extra_header : Option ℕ → Bytes
  extra_header (some payload_time) = slice (tuple (le_u32 payload_time ∷ le_u32 0 ∷ []))
  extra_header none = slice []

  abbrev pub extra_header_size : Option ℕ → ℕ
  extra_header_size (some payload_time) = 8
  extra_header_size none = 0

  unfoldable pub bcmedia_iframe : BcMediaIframe → Bytes
  bcmedia_iframe payload = tuple (
      le_u32 magic_header_bcmedia_iframe
      ∷ string (vid_string payload.video_type)
      ∷ le_u32 (u32 (length payload.bytes))
      ∷ le_u32 (extra_header_size payload.time)
      ∷ le_u32 payload.microseconds
      ∷ le_u32 0
      ∷ extra_header payload.time
      ∷ [])

  unfoldable pub bcmedia_pframe : BcMediaPframe → Bytes
  bcmedia_pframe payload = tuple (
      le_u32 magic_header_bcmedia_pframe
      ∷ string (vid_string payload.video_type)
      ∷ le_u32 (u32 (length payload.bytes))
      ∷ le_u32 0
      ∷ le_u32 payload.microseconds
      ∷ le_u32 0
      ∷ [])

  unfoldable pub bcmedia_aac : BcMediaAac → Bytes
  bcmedia_aac payload = tuple (
      le_u32 magic_header_bcmedia_aac
      ∷ le_u16 (u16 (length payload.bytes))
      ∷ le_u16 (u16 (length payload.bytes))
      ∷ [])

  -- `payload.data.len() - 4` is of 64 bits, and wraps.
  unfoldable pub bcmedia_adpcm : BcMediaAdpcm → Bytes
  bcmedia_adpcm payload = tuple (
      le_u32 magic_header_bcmedia_adpcm
      ∷ le_u16 (u16 (length payload.bytes + 4))
      ∷ le_u16 (u16 (length payload.bytes + 4))
      ∷ le_u16 magic_header_bcmedia_adpcm_data
      ∷ le_u16 (u16 ((length payload.bytes + 18446744073709551616 - 4) % 18446744073709551616 / 2))
      ∷ [])

  -- A header, the data and the padding.
  unfoldable pub padded : Bytes → Bytes → Bytes
  padded header bytes =
      tuple (header ∷ slice bytes ∷ slice (replicate (pad_size (u32 (length bytes))) 0) ∷ [])

  unfoldable pub serialize : BcMedia → Bytes
  unfolding bcmedia_info_v1 bcmedia_info_v2 bcmedia_iframe bcmedia_pframe bcmedia_aac bcmedia_adpcm
      padded
  serialize (info_v1 payload) = bcmedia_info_v1 payload
  serialize (info_v2 payload) = bcmedia_info_v2 payload
  serialize (iframe payload) = padded (bcmedia_iframe payload) payload.bytes
  serialize (pframe payload) = padded (bcmedia_pframe payload) payload.bytes
  serialize (aac payload) = padded (bcmedia_aac payload) payload.bytes
  serialize (adpcm payload) = padded (bcmedia_adpcm payload) payload.bytes
