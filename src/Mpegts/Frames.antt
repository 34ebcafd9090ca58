-- ===== src/Mpegts/Frames.antt =====
-- `TsMuxer::write_frame` and `psi_due` of src/mpegts/mod.rs.
use neolink.Base.{
  ℕ, ◌+◌, ◌-◌, ◌*◌, ◌/◌, ◌%◌, ◌==◌, min, bit_and, [], ◌∷◌, ◌++◌, length, Option, none, some, Bool,
  true, false, ◌||◌, leb, if◌then◌else◌, get_elem?, set,
}
use neolink.Base.Words.{Bytes, u64_max}
use neolink.Mpegts.{
  TsMuxer, Track, stream_id, timestamp_mask, pts_lead, psi_interval, write_psi, be_u16,
}
use neolink.Mpegts.Packets.{Chain, emit_packets, write_timestamp}

unfoldable pub clock_of : ℕ → ℕ
clock_of pts_us = bit_and (min (pts_us * 9) u64_max / 100) timestamp_mask

-- `wrapping_sub` is of 64 bits.
unfoldable pub psi_due : Option ℕ → ℕ → Bool → Bool
psi_due none clock random_access = true
psi_due (some last) clock random_access =
    random_access
    || leb psi_interval (bit_and ((clock + (u64_max + 1) - last) % (u64_max + 1)) timestamp_mask)

-- The PES header, with the length of the packet where that fits.
unfoldable pub pes_header : Track → ℕ → Bytes → Bytes
pes_header t clock payload =
    let body = 3 + 5 + length payload in
    (0 ∷ 0 ∷ 1 ∷ stream_id t.kind ∷ [])
    ++ be_u16 (if leb body 65535 then body else 0)
    ++ (0x80 ∷ 0x80 ∷ 5 ∷ write_timestamp 2 (bit_and (clock + pts_lead) timestamp_mask))

unfoldable pub repeat_psi : ℕ → Bool → TsMuxer → TsMuxer × Bytes
repeat_psi clock random_access m =
    let written = write_psi m in
    if psi_due m.last_psi clock random_access
    then (record written.0 { last_psi = some clock }, written.1)
    else (m, [])

unfoldable pub is_pcr_track : ℕ → Option ℕ → Bool
is_pcr_track i none = false
is_pcr_track i (some j) = i == j

unfoldable pub write_track : ℕ → ℕ → Bool → Bytes → TsMuxer → Option Track → TsMuxer × Bytes
write_track i clock random_access payload m none = (m, [])
write_track i clock random_access payload m (some t) =
    let chain : Chain = record { head = pes_header t clock payload; tail = payload } in
    let pcr = if is_pcr_track i m.pcr_track then some clock else none in
    let emitted = emit_packets t chain pcr random_access in
    (record m { tracks = set m.tracks i emitted.0 }, emitted.1)

unfoldable pub write_frame : ℕ → ℕ → Bool → Bytes → TsMuxer → TsMuxer × Bytes
write_frame i pts_us random_access [] m = (m, [])
write_frame i pts_us random_access (b ∷ bs) m =
    let clock = clock_of pts_us in
    let psi = repeat_psi clock random_access m in
    let framed = write_track i clock random_access (b ∷ bs) psi.0 (get_elem? psi.0.tracks i) in
    (framed.0, psi.1 ++ framed.1)
