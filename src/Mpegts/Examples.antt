-- ===== src/Mpegts/Examples.antt =====
-- The muxer at a small frame.
use neolink.Base.{◌≡◌, refl, arith, [], ◌∷◌, ◌++◌, length, some, true, replicate, suc}
use neolink.Mpegts.{
  TsMuxer, Track, h264, pcma, new, crc32_mpeg2, crc_from, crc_bits, crc_bit, declare, be_u16,
}
use neolink.Mpegts.Packets.{
  Chain, chain_len, chain_take, adaptation, reserved, packet_header, emit_from, emit_packets,
  flag_bits, pcr_bytes, write_timestamp, write_pcr,
}
use neolink.Mpegts.Clock.{read_timestamp, read_timestamp-write_timestamp}
use neolink.Mpegts.Frames.{clock_of, write_frame}
use neolink.Mpegts.Pes.{IsFramed, write_frame-IsFramed}
use neolink.Mpegts.Demux.{demux}
use neolink.Mpegts.Emit.{demux-emit_packets}

-- The check value of CRC-32/MPEG-2, of the text "123456789".
crc_check : crc32_mpeg2 (49 ∷ 50 ∷ 51 ∷ 52 ∷ 53 ∷ 54 ∷ 55 ∷ 56 ∷ 57 ∷ []) ≡ 0x0376_e6e7
unfolding crc32_mpeg2 crc_from crc_bits crc_bit
crc_check = refl

abbrev video : Track
video = record { pid = 0x100; kind = h264; continuity = 14 }

abbrev a_chain : Chain
a_chain = record { head = 0 ∷ 0 ∷ 1 ∷ []; tail = replicate 300 7 }

two_packets : length (emit_packets video a_chain (some 18_000) true).1 ≡ 376
unfolding emit_packets emit_from chain_len chain_take adaptation reserved packet_header be_u16
    flag_bits pcr_bytes write_pcr
two_packets = refl

demux-emit_packets_example :
    demux (suc (chain_len a_chain)) 0x100 14 (emit_packets video a_chain (some 18_000) true).1
    ≡ some (a_chain.head ++ a_chain.tail)
demux-emit_packets_example = demux-emit_packets video a_chain (some 18_000) true (omega arith)

read_timestamp-write_timestamp_example :
    read_timestamp (write_timestamp 2 5_000_000_000) ≡ 5_000_000_000
read_timestamp-write_timestamp_example =
    read_timestamp-write_timestamp 2 5_000_000_000 (omega arith) (omega arith)

abbrev muxer : TsMuxer
muxer = new (h264 ∷ pcma ∷ [])

write_frame-IsFramed_example :
    IsFramed muxer 0
      (record { pid = 0x100; kind = h264; continuity = 0 })
      (clock_of 40_000)
      (7 ∷ replicate 300 8)
      (write_frame 0 40_000 true (7 ∷ replicate 300 8) muxer).1
      (write_frame 0 40_000 true (7 ∷ replicate 300 8) muxer).0
unfolding new declare
write_frame-IsFramed_example =
    write_frame-IsFramed 0 40_000 true 7 (replicate 300 8) muxer
      (record { pid = 0x100; kind = h264; continuity = 0 }) refl (omega arith) (omega arith)
      (omega arith, (omega arith, tt))
