-- ===== src/Mpegts.antt =====
-- src/mpegts/mod.rs: the MPEG-TS muxer. What a function appends to `out` is its result.
use neolink.Base.{
  ℕ, zero, suc, ◌+◌, ◌-◌, ◌*◌, ◌/◌, ◌==◌, min, bit_and, bit_or, bit_xor, List, [], ◌∷◌, ◌++◌,
  length, Option, none, some, Bool, true, false, ◌&&◌, ◌||◌, ltb, leb, if◌then◌else◌, replicate,
  take, drop, position, get_elem?, set,
}
use neolink.Base.Words.{Bytes, u8, u16, u32, u64_max}
pub mod Packets
pub mod Demux
pub mod Emit
pub mod Frames
pub mod Clock
pub mod Tables
pub mod Psi
pub mod Continuity
pub mod Pes
mod Examples

abbrev pub ts_packet_size : ℕ
ts_packet_size = 188

abbrev pub ts_payload_size : ℕ
ts_payload_size = 184

abbrev pub sync_byte : ℕ
sync_byte = 0x47

abbrev pub pat_pid : ℕ
pat_pid = 0

abbrev pub pmt_pid : ℕ
pmt_pid = 0x1000

abbrev pub first_es_pid : ℕ
first_es_pid = 0x100

abbrev pub null_pid : ℕ
null_pid = 0x1fff

abbrev pub program_number : ℕ
program_number = 1

abbrev pub reserved_3 : ℕ
reserved_3 = 57344

abbrev pub empty_info_length : ℕ
empty_info_length = 61440

abbrev pub pusi : ℕ
pusi = 16384

abbrev pub clock_hz : ℕ
clock_hz = 90_000

abbrev pub timestamp_mask : ℕ
timestamp_mask = 8589934591

abbrev pub pts_lead : ℕ
pts_lead = 18_000

abbrev pub psi_interval : ℕ
psi_interval = 9_000

pub data StreamType : Type 0 where
  h264 : StreamType
  h265 : StreamType
  aac : StreamType
  pcma : StreamType

unfoldable pub id : StreamType → ℕ
id h264 = 0x1b
id h265 = 0x24
id aac = 0x0f
id pcma = 0x90

unfoldable pub is_video : StreamType → Bool
is_video h264 = true
is_video h265 = true
is_video aac = false
is_video pcma = false

unfoldable pub stream_id : StreamType → ℕ
stream_id kind = if is_video kind then 0xe0 else 0xc0

pub record Track : Type 0 where
  pub pid : ℕ
  pub kind : StreamType
  pub continuity : ℕ

-- A `TrackId` is the index of a track.
pub record TsMuxer : Type 0 where
  pub tracks : List Track
  pub pcr_track : Option ℕ
  pub pat_continuity : ℕ
  pub pmt_continuity : ℕ
  pub last_psi : Option ℕ

unfoldable pub declare : ℕ → List StreamType → List Track
declare i [] = []
declare i (kind ∷ kinds) =
    record { pid = u16 (first_es_pid + u16 i); kind = kind; continuity = 0 } ∷ declare (i + 1) kinds

unfoldable pub new : List StreamType → TsMuxer
new kinds =
    let tracks = declare 0 kinds in
    record {
      tracks = tracks;
      pcr_track = elim (position (λ (t : Track). is_video t.kind) tracks) [
        | some i ↦ some i
        | none ↦ elim tracks [ [] ↦ none | t ∷ ts ↦ some 0 ]
      ];
      pat_continuity = 0;
      pmt_continuity = 0;
      last_psi = none;
    }

-- Equality of stream types is equality of their ids.
unfoldable pub track : TsMuxer → StreamType → Option ℕ
track m kind = position (λ (t : Track). id t.kind == id kind) m.tracks

unfoldable pub be_u16 : ℕ → Bytes
be_u16 n = u8 (n / 256) ∷ u8 n ∷ []

unfoldable pub be_u32 : ℕ → Bytes
be_u32 n = u8 (n / 16777216) ∷ u8 (n / 65536) ∷ u8 (n / 256) ∷ u8 n ∷ []

unfoldable pub psi_section : ℕ → ℕ → Bytes → Bytes
psi_section table_id extension body =
    table_id ∷ be_u16 (bit_or 45056 (u16 (5 + u16 (length body) + 4)))
    ++ be_u16 extension
    ++ (bit_or 192 1 ∷ 0 ∷ 0 ∷ body)

-- One round of the inner loop of the checksum.
unfoldable pub crc_bit : ℕ → ℕ
crc_bit crc =
    if bit_and crc 0x8000_0000 == 0 then u32 (crc * 2) else bit_xor (u32 (crc * 2)) 0x04c1_1db7

unfoldable pub crc_bits : ℕ → ℕ → ℕ
crc_bits zero crc = crc
crc_bits (suc n) crc = crc_bits n (crc_bit crc)

unfoldable pub crc_from : ℕ → Bytes → ℕ
crc_from crc [] = crc
crc_from crc (b ∷ bs) = crc_from (crc_bits 8 (bit_xor crc (u32 (b * 16777216)))) bs

unfoldable pub crc32_mpeg2 : Bytes → ℕ
crc32_mpeg2 bs = crc_from 0xffff_ffff bs

unfoldable pub pat_section : TsMuxer → Bytes
pat_section m =
    psi_section 0 program_number (be_u16 program_number ++ be_u16 (bit_or reserved_3 pmt_pid))

unfoldable pub pcr_pid : TsMuxer → ℕ
pcr_pid m = elim m.pcr_track [
  | none ↦ null_pid
  | some i ↦ elim (get_elem? m.tracks i) [ none ↦ null_pid | some t ↦ t.pid ]
]

unfoldable pub stream_list : List Track → Bytes
stream_list [] = []
stream_list (t ∷ ts) =
    id t.kind ∷ be_u16 (bit_or reserved_3 t.pid) ++ be_u16 empty_info_length ++ stream_list ts

unfoldable pub pmt_section : TsMuxer → Bytes
pmt_section m =
    psi_section 2 program_number
      (be_u16 (bit_or reserved_3 (pcr_pid m)) ++ be_u16 empty_info_length ++ stream_list m.tracks)

-- The packet, for the counter before it. The counter goes up by one, wrapping.
unfoldable pub write_psi_packet : ℕ → ℕ → Bytes → Bytes
write_psi_packet pid continuity section =
    let packet =
      sync_byte ∷ be_u16 (bit_or pusi pid)
      ++ (bit_or 16 (bit_and continuity 15) ∷ 0 ∷ section ++ be_u32 (crc32_mpeg2 section)) in
    packet ++ replicate (ts_packet_size - length packet) 0xff

unfoldable pub write_psi : TsMuxer → TsMuxer × Bytes
write_psi m = (
  record m {
    pat_continuity = u8 (m.pat_continuity + 1);
    pmt_continuity = u8 (m.pmt_continuity + 1);
  },
  write_psi_packet pat_pid m.pat_continuity (pat_section m)
      ++ write_psi_packet pmt_pid m.pmt_continuity (pmt_section m),
)
