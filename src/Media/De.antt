-- ===== src/Media/De.antt =====
-- crates/core/src/bcmedia/de.rs: a media packet from bytes.
use neolink.Base.{
  ℕ, ◌+◌, ◌-◌, ◌%◌, length, drop, Bool, true, ◌||◌, ◌&&◌, Option, none, some, ◌==◌, leb, ltb,
  if◌then◌else◌,
}
use neolink.Base.Words.{Bytes, bytes_eq}
use neolink.Base.Utf8.{from_utf8}
use neolink.Wire.{Nom, IResult, done, panic, ◌>>=◌}
use neolink.Media.Model.{
  BcMedia, info_v1, info_v2, iframe, pframe, aac, adpcm, BcMediaInfoV1, BcMediaInfoV2,
  BcMediaIframe, BcMediaPframe, BcMediaAac, BcMediaAdpcm, VideoType, h264, h265,
  magic_header_bcmedia_info_v1, magic_header_bcmedia_info_v2, magic_header_bcmedia_iframe,
  magic_header_bcmedia_iframe_last, magic_header_bcmedia_pframe, magic_header_bcmedia_pframe_last,
  magic_header_bcmedia_aac, magic_header_bcmedia_adpcm, magic_header_bcmedia_adpcm_data,
}
use neolink.Media.Ser.{pad_size, vid_string}

abbrev pub is_iframe : ℕ → Bool
is_iframe x = leb magic_header_bcmedia_iframe x && leb x magic_header_bcmedia_iframe_last

abbrev pub is_pframe : ℕ → Bool
is_pframe x = leb magic_header_bcmedia_pframe x && leb x magic_header_bcmedia_pframe_last

abbrev pub is_magic : ℕ → Bool
is_magic x =
    x == magic_header_bcmedia_info_v1
    || (x == magic_header_bcmedia_info_v2
        || (is_iframe x
            || (is_pframe x || (x == magic_header_bcmedia_aac || x == magic_header_bcmedia_adpcm))))

-- `matches!(x, "H264" | "H265")`
abbrev pub is_video : Bytes → Bool
is_video x = bytes_eq x (vid_string h264) || bytes_eq x (vid_string h265)

-- The `match` on the text that `is_video` has let through.
abbrev pub of_video : Bytes → Option VideoType
of_video x =
    if bytes_eq x (vid_string h264)
    then some h264
    else if bytes_eq x (vid_string h265)
    then some h265
    else none

-- The ends of the frame parsers: `assert_eq!` on the length, and `unreachable!()`.
abbrev pub end_iframe :
    Bool → Option VideoType → Bytes → ℕ → Option ℕ → Bytes → IResult BcMediaIframe
end_iframe true (some video_type) buf microseconds time data_slice = done (
  buf,
  record { video_type = video_type; microseconds = microseconds; time = time; bytes = data_slice },
)
end_iframe _ _ buf microseconds time data_slice = panic

abbrev pub end_pframe : Bool → Option VideoType → Bytes → ℕ → Bytes → IResult BcMediaPframe
end_pframe true (some video_type) buf microseconds data_slice =
    done (buf, record { video_type = video_type; microseconds = microseconds; bytes = data_slice })
end_pframe _ _ buf microseconds data_slice = panic

module _ (n : Nom) where
  open n use {le_u8, le_u16, le_u32, take, verify, map_res, consumed}

  unfoldable pub bcmedia_info_v1 : Bytes → IResult BcMediaInfoV1
  bcmedia_info_v1 buf = do
    (buf, header_size) ← verify ℕ le_u32 (λ x. x == 32) buf
    (buf, video_width) ← le_u32 buf
    (buf, video_height) ← le_u32 buf
    (buf, unknown) ← le_u8 buf
    (buf, fps) ← le_u8 buf
    (buf, start_year) ← le_u8 buf
    (buf, start_month) ← le_u8 buf
    (buf, start_day) ← le_u8 buf
    (buf, start_hour) ← le_u8 buf
    (buf, start_min) ← le_u8 buf
    (buf, start_seconds) ← le_u8 buf
    (buf, end_year) ← le_u8 buf
    (buf, end_month) ← le_u8 buf
    (buf, end_day) ← le_u8 buf
    (buf, end_hour) ← le_u8 buf
    (buf, end_min) ← le_u8 buf
    (buf, end_seconds) ← le_u8 buf
    (buf, unknown_b) ← le_u16 buf
    done (
      buf,
      record {
        video_width = video_width;
        video_height = video_height;
        fps = fps;
        start_year = start_year;
        start_month = start_month;
        start_day = start_day;
        start_hour = start_hour;
        start_min = start_min;
        start_seconds = start_seconds;
        end_year = end_year;
        end_month = end_month;
        end_day = end_day;
        end_hour = end_hour;
        end_min = end_min;
        end_seconds = end_seconds;
      },
    )

  unfoldable pub bcmedia_info_v2 : Bytes → IResult BcMediaInfoV2
  bcmedia_info_v2 buf = do
    (buf, header_size) ← verify ℕ le_u32 (λ x. x == 32) buf
    (buf, video_width) ← le_u32 buf
    (buf, video_height) ← le_u32 buf
    (buf, unknown) ← le_u8 buf
    (buf, fps) ← le_u8 buf
    (buf, start_year) ← le_u8 buf
    (buf, start_month) ← le_u8 buf
    (buf, start_day) ← le_u8 buf
    (buf, start_hour) ← le_u8 buf
    (buf, start_min) ← le_u8 buf
    (buf, start_seconds) ← le_u8 buf
    (buf, end_year) ← le_u8 buf
    (buf, end_month) ← le_u8 buf
    (buf, end_day) ← le_u8 buf
    (buf, end_hour) ← le_u8 buf
    (buf, end_min) ← le_u8 buf
    (buf, end_seconds) ← le_u8 buf
    (buf, unknown_b) ← le_u16 buf
    done (
      buf,
      record {
        video_width = video_width;
        video_height = video_height;
        fps = fps;
        start_year = start_year;
        start_month = start_month;
        start_day = start_day;
        start_hour = start_hour;
        start_min = start_min;
        start_seconds = start_seconds;
        end_year = end_year;
        end_month = end_month;
        end_day = end_day;
        end_hour = end_hour;
        end_min = end_min;
        end_seconds = end_seconds;
      },
    )

  unfoldable pub take4 : Bytes → IResult Bytes
  take4 buf = map_res Bytes Bytes (take 4) from_utf8 buf

  unfoldable pub bcmedia_iframe : Bytes → IResult BcMediaIframe
  bcmedia_iframe buf = do
    (buf, video_type_str) ← verify Bytes take4 is_video buf
    (buf, payload_size) ← le_u32 buf
    (buf, additional_header_size) ← le_u32 buf
    (buf, microseconds) ← le_u32 buf
    (buf, unknown_b) ← le_u32 buf
    (buf, time) ←
        if leb 4 additional_header_size
        then (le_u32 buf >>= λ p. done (p.0, some p.1))
        else done (buf, none)
    (buf, unknown_remained) ←
        if ltb 4 additional_header_size
        then (take (additional_header_size - 4) buf >>= λ p. done (p.0, some p.1))
        else done (buf, none)
    (buf, data_slice) ← take payload_size buf
    (buf, padding) ← take (pad_size payload_size) buf
    end_iframe (payload_size == length data_slice) (of_video video_type_str) buf microseconds time
        data_slice

  unfoldable pub bcmedia_pframe : Bytes → IResult BcMediaPframe
  bcmedia_pframe buf = do
    (buf, video_type_str) ← verify Bytes take4 is_video buf
    (buf, payload_size) ← le_u32 buf
    (buf, additional_header_size) ← le_u32 buf
    (buf, microseconds) ← le_u32 buf
    (buf, unknown_b) ← le_u32 buf
    (buf, additional_header) ← take additional_header_size buf
    (buf, data_slice) ← take payload_size buf
    (buf, padding) ← take (pad_size payload_size) buf
    end_pframe (payload_size == length data_slice) (of_video video_type_str) buf microseconds
        data_slice

  unfoldable pub bcmedia_aac : Bytes → IResult BcMediaAac
  bcmedia_aac buf = do
    (buf, payload_size) ← le_u16 buf
    (buf, payload_size_b) ← le_u16 buf
    (buf, data_slice) ← take payload_size buf
    (buf, padding) ← take (pad_size payload_size) buf
    done (buf, record { bytes = data_slice })

  -- `payload_size - SUB_HEADER_SIZE` is of 16 bits, and wraps.
  unfoldable pub bcmedia_adpcm : Bytes → IResult BcMediaAdpcm
  bcmedia_adpcm buf = do
    (buf, payload_size) ← le_u16 buf
    (buf, payload_size_b) ← le_u16 buf
    (buf, magic) ← verify ℕ le_u16 (λ x. x == magic_header_bcmedia_adpcm_data) buf
    (buf, half_block_size) ← le_u16 buf
    let block_size = (payload_size + 65536 - 4) % 65536
    (buf, data_slice) ← take block_size buf
    (buf, padding) ← take (pad_size payload_size) buf
    done (buf, record { bytes = data_slice })

  -- The `match` on the magic.
  abbrev packet_of : ℕ → Bytes → IResult BcMedia
  packet_of magic buf =
      if magic == magic_header_bcmedia_info_v1
      then (bcmedia_info_v1 buf >>= λ p. done (p.0, info_v1 p.1))
      else if magic == magic_header_bcmedia_info_v2
      then (bcmedia_info_v2 buf >>= λ p. done (p.0, info_v2 p.1))
      else if is_iframe magic
      then (bcmedia_iframe buf >>= λ p. done (p.0, iframe p.1))
      else if is_pframe magic
      then (bcmedia_pframe buf >>= λ p. done (p.0, pframe p.1))
      else if magic == magic_header_bcmedia_aac
      then (bcmedia_aac buf >>= λ p. done (p.0, aac p.1))
      else if magic == magic_header_bcmedia_adpcm
      then (bcmedia_adpcm buf >>= λ p. done (p.0, adpcm p.1))
      else panic

  unfoldable pub bcmedia : Bytes → IResult BcMedia
  bcmedia buf = do (buf, magic) ← verify ℕ le_u32 is_magic buf; packet_of magic buf

  -- `deserialize(buf)`: the packet, and what `buf.advance(len)` leaves in the buffer.
  unfoldable pub deserialize : Bytes → IResult BcMedia
  deserialize buf = do
    (rest, parsed) ← consumed BcMedia bcmedia buf
    let len = length parsed.0
    done (drop len buf, parsed.1)
