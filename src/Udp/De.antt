-- ===== src/Udp/De.antt =====
-- crates/core/src/bcudp/de.rs: a packet from bytes.
use neolink.Base.{
  ℕ, [], length, drop, Bool, true, false, ◌||◌, Option, none, some, ◌==◌, ltb, if◌then◌else◌,
}
use neolink.Base.Words.{Bytes}
use neolink.Wire.{Nom, IResult, done, error, panic, ◌>>=◌}
use neolink.Udp.Model.{
  BcUdp, discovery, ack, data_packet, UdpDiscovery, UdpAck, UdpData, UdpXml, magic_header_udp_nego,
  magic_header_udp_ack, magic_header_udp_data,
}
use neolink.Udp.Crypto.{UdpDeps, decrypt, calc_crc}

abbrev pub is_magic : ℕ → Bool
is_magic x = x == magic_header_udp_nego || x == magic_header_udp_ack || x == magic_header_udp_data

abbrev pub is_group : ℕ → Bool
is_group x = x == 0 || x == 0xffff_ffff

-- The end of `udp_disc`: `assert_eq!(checksum, actual_checksum)` panics on a checksum that is wrong.
abbrev pub checked_disc : Bool → Bytes → ℕ → Option UdpXml → IResult UdpDiscovery
checked_disc false buf tid parsed = panic
checked_disc true buf tid none = error
checked_disc true buf tid (some payload) = done (buf, record { tid = tid; payload = payload })

module _ (deps : UdpDeps) (n : Nom) where
  open n use {le_u32, le_i32, take, verify, consumed}

  unfoldable pub udp_disc : Bytes → IResult UdpDiscovery
  udp_disc buf = do
    (buf, payload_size) ← le_u32 buf
    (buf, unknown_a) ← verify ℕ le_u32 (λ x. x == 1) buf
    (buf, tid) ← le_u32 buf
    (buf, checksum) ← le_u32 buf
    (buf, enc_data_slice) ← take payload_size buf
    let actual_checksum = calc_crc deps enc_data_slice
    let decrypted_payload = decrypt tid enc_data_slice
    checked_disc (checksum == actual_checksum) buf tid (deps.xml_try_parse decrypted_payload)

  unfoldable pub udp_ack : Bytes → IResult UdpAck
  udp_ack buf = do
    (buf, connection_id) ← le_i32 buf
    (buf, unknown_a) ← verify ℕ le_u32 (λ x. x == 0) buf
    (buf, group_id) ← verify ℕ le_u32 is_group buf
    (buf, packet_id) ← le_u32 buf
    (buf, maybe_latency) ← le_u32 buf
    (buf, payload_size) ← le_u32 buf
    (buf, payload) ← if ltb 0 payload_size then take payload_size buf else done (buf, [])
    done (
      buf,
      record {
        connection_id = connection_id;
        group_id = group_id;
        packet_id = packet_id;
        maybe_latency = maybe_latency;
        payload = payload;
      },
    )

  unfoldable pub udp_data : Bytes → IResult UdpData
  udp_data buf = do
    (buf, connection_id) ← le_i32 buf
    (buf, unknown_a) ← verify ℕ le_u32 (λ x. x == 0) buf
    (buf, packet_id) ← le_u32 buf
    (buf, payload_size) ← le_u32 buf
    (buf, payload) ← take payload_size buf
    done (buf, record { connection_id = connection_id; packet_id = packet_id; payload = payload })

  -- The `match` on the magic; a value that `verify` has refused is `unreachable!()`.
  abbrev packet_of : ℕ → Bytes → IResult BcUdp
  packet_of magic buf =
      if magic == magic_header_udp_nego
      then (udp_disc buf >>= λ p. done (p.0, discovery p.1))
      else if magic == magic_header_udp_ack
      then (udp_ack buf >>= λ p. done (p.0, ack p.1))
      else if magic == magic_header_udp_data
      then (udp_data buf >>= λ p. done (p.0, data_packet p.1))
      else panic

  unfoldable pub bcudp : Bytes → IResult BcUdp
  bcudp buf = do (buf, magic) ← verify ℕ le_u32 is_magic buf; packet_of magic buf

  -- `deserialize(buf)`: the packet, and what `buf.advance(len)` leaves in the buffer.
  unfoldable pub deserialize : Bytes → IResult BcUdp
  deserialize buf = do
    (rest, parsed) ← consumed BcUdp bcudp buf
    let len = length parsed.0
    done (drop len buf, parsed.1)
