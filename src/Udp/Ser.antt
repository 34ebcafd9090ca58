-- ===== src/Udp/Ser.antt =====
-- crates/core/src/bcudp/ser.rs: a packet as bytes.
use neolink.Base.{ℕ, [], ◌∷◌, length}
use neolink.Base.Words.{Bytes, u32}
use neolink.Wire.{Cookie}
use neolink.Udp.Model.{
  BcUdp, discovery, ack, data_packet, UdpDiscovery, UdpAck, UdpData, magic_header_udp_nego,
  magic_header_udp_ack, magic_header_udp_data,
}
use neolink.Udp.Crypto.{UdpDeps, encrypt, calc_crc}

-- `x.len() as u32`
abbrev pub len_u32 : Bytes → ℕ
len_u32 b = u32 (length b)

module _ (deps : UdpDeps) (c : Cookie) where
  open c use {le_u32, le_i32, slice, tuple}

  unfoldable pub bcudp_disc : UdpDiscovery → Bytes → Bytes
  bcudp_disc payload xml_payload =
      let checksum = calc_crc deps xml_payload in
      tuple (
        le_u32 magic_header_udp_nego
        ∷ le_u32 (len_u32 xml_payload)
        ∷ le_u32 1
        ∷ le_u32 payload.tid
        ∷ le_u32 checksum
        ∷ slice xml_payload
        ∷ [])

  unfoldable pub bcudp_ack : UdpAck → Bytes → Bytes
  bcudp_ack payload binary_payload = tuple (
      le_u32 magic_header_udp_ack
      ∷ le_i32 payload.connection_id
      ∷ le_u32 0
      ∷ le_u32 payload.group_id
      ∷ le_u32 payload.packet_id
      ∷ le_u32 payload.maybe_latency
      ∷ le_u32 (len_u32 binary_payload)
      ∷ slice binary_payload
      ∷ [])

  unfoldable pub bcudp_data : UdpData → Bytes → Bytes
  bcudp_data payload binary_payload = tuple (
      le_u32 magic_header_udp_data
      ∷ le_i32 payload.connection_id
      ∷ le_u32 0
      ∷ le_u32 payload.packet_id
      ∷ le_u32 (len_u32 binary_payload)
      ∷ slice binary_payload
      ∷ [])

  unfoldable pub serialize : BcUdp → Bytes
  unfolding bcudp_disc bcudp_ack bcudp_data
  serialize (discovery payload) =
      let xml_payload = encrypt payload.tid (deps.xml_serialize payload.payload) in
      bcudp_disc payload xml_payload
  serialize (ack payload) = bcudp_ack payload payload.payload
  serialize (data_packet payload) = bcudp_data payload payload.payload
