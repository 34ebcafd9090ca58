-- ===== src/Mpegts/Tables.antt =====
-- Each program table fills one packet.
use neolink.Base.{
  bit_or, ℕ, ◌+◌, ◌-◌, ◌*◌, ◌≡◌, ◌≤◌, arith, List, [], ◌∷◌, ◌++◌, length, replicate, length-append,
  length-replicate,
}
use neolink.Base.Words.{Bytes}
use neolink.Mpegts.{
  TsMuxer, Track, be_u16, be_u32, psi_section, crc32_mpeg2, pat_section, pmt_section, stream_list,
  write_psi_packet, write_psi, pat_pid, pmt_pid, pcr_pid, reserved_3, empty_info_length,
}

length-stuffed : (bs : Bytes) (n : ℕ) → length (bs ++ replicate n 0xff) ≡ length bs + n
length-stuffed bs n =
    omega (arith, length-append bs (replicate n 0xff), length-replicate {A = ℕ} n 0xff)

pub length-write_psi_packet :
    (pid continuity : ℕ) (section : Bytes)
    → length section ≤ 179
    → length (write_psi_packet pid continuity section) ≡ 188
unfolding write_psi_packet be_u16 be_u32
length-write_psi_packet pid continuity section h =
    let content = section ++ be_u32 (crc32_mpeg2 section) in
    omega (
      arith,
      length-append section (be_u32 (crc32_mpeg2 section)),
      length-stuffed content (188 - length (0 ∷ 0 ∷ 0 ∷ 0 ∷ 0 ∷ content)),
    )

pub length-psi_section :
    (table_id extension : ℕ) (body : Bytes)
    → length (psi_section table_id extension body) ≡ 8 + length body
unfolding psi_section be_u16
length-psi_section table_id extension body = omega arith

pub length-stream_list : (ts : List Track) → length (stream_list ts) ≡ 5 * length ts
unfolding stream_list be_u16
length-stream_list [] = omega arith
length-stream_list (t ∷ ts) = omega (arith, length-stream_list ts)

-- With at most 33 tracks the PAT and the PMT are a packet of 188 bytes each.
pub length-write_psi : (m : TsMuxer) → length m.tracks ≤ 33 → length (write_psi m).1 ≡ 376
unfolding write_psi pat_section pmt_section be_u16
length-write_psi m h =
    let pat = pat_section m in
    let pmt = pmt_section m in
    let a : length pat ≤ 179 =
      omega (arith, length-psi_section 0 1 (be_u16 1 ++ be_u16 (bit_or reserved_3 pmt_pid))) in
    let b : length pmt ≤ 179 = omega (
      arith,
      length-psi_section 2 1 (
          be_u16 (bit_or reserved_3 (pcr_pid m))
          ++ be_u16 empty_info_length
          ++ stream_list m.tracks),
      length-stream_list m.tracks,
    ) in
    omega (
      arith,
      length-append (write_psi_packet pat_pid m.pat_continuity pat)
          (write_psi_packet pmt_pid m.pmt_continuity pmt),
      length-write_psi_packet pat_pid m.pat_continuity pat a,
      length-write_psi_packet pmt_pid m.pmt_continuity pmt b,
    )
