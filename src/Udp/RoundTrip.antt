-- ===== src/Udp/RoundTrip.antt =====
-- Reading back what was written, with whatever follows it in the buffer.
use neolink.Base.{
  ◌≡◌, ◌⊎◌, refl, arith, [], ◌∷◌, ◌++◌, length, some, ◌==◌, ==_self, ltb, lt→ltb, if◌then◌else◌,
  append_assoc, drop-append_length,
}
use neolink.Base.Words.{Bytes, IsU32, le_bytes}
use neolink.Wire.{Nom, Cookie, done, verify_u32}
use neolink.Udp.Model.{
  BcUdp, discovery, ack, data_packet, UdpDiscovery, UdpAck, UdpData, magic_header_udp_nego,
  magic_header_udp_ack, magic_header_udp_data,
}
use neolink.Udp.Crypto.{UdpDeps, encrypt, decrypt-encrypt, calc_crc, calc_crc-IsU32}
use neolink.Udp.Ser.{serialize, len_u32}
use neolink.Udp.De.{udp_disc, udp_ack, udp_data, bcudp, deserialize, is_magic, is_group}

-- The packets that fit the format: words of 32 bits, payloads whose length is one, and for a
-- discovery packet XML that quick_xml reads back as what it wrote.
abbrev pub FitsWire : UdpDeps → BcUdp → Type 0
FitsWire deps (discovery d) =
    IsU32 d.tid
    × IsU32 (length (deps.xml_serialize d.payload))
    × (deps.xml_try_parse (deps.xml_serialize d.payload) ≡ some d.payload)
FitsWire deps (ack a) =
    IsU32 a.connection_id
    × ((a.group_id ≡ 0) ⊎ (a.group_id ≡ 0xffff_ffff))
    × IsU32 a.packet_id
    × IsU32 a.maybe_latency
    × IsU32 (length a.payload)
FitsWire deps (data_packet d) = IsU32 d.connection_id × IsU32 d.packet_id × IsU32 (length d.payload)

module _ (deps : UdpDeps) (n : Nom) (c : Cookie) where
  open n use {le_u32_lem, le_i32_lem, take_lem, consumed_done}

  len_u32_lem : (b : Bytes) → IsU32 (length b) → length b ≡ len_u32 b
  len_u32_lem b h = omega arith

  bcudp_data_packet :
      (d : UdpData) (rest : Bytes)
      → FitsWire deps (data_packet d)
      → bcudp deps n (serialize deps c (data_packet d) ++ rest) ≡ done (rest, data_packet d)
  unfolding serialize bcudp udp_data
  bcudp_data_packet d rest (h, k, l) =
      let b₅ = d.payload ++ rest in
      let b₄ = le_bytes 4 (len_u32 d.payload) ++ b₅ in
      let b₃ = le_bytes 4 d.packet_id ++ b₄ in
      let b₂ = le_bytes 4 0 ++ b₃ in
      let b₁ = le_bytes 4 d.connection_id ++ b₂ in
      simp (c.le_u32_lem, c.le_i32_lem, c.slice_lem, c.tuple_cons, c.tuple_nil, append_assoc)
        (rw (
          verify_u32 n is_magic magic_header_udp_data b₁ (omega arith) refl,
          le_i32_lem d.connection_id b₂ h,
          verify_u32 n (λ x. x == 0) 0 b₃ (omega arith) refl,
          le_u32_lem d.packet_id b₄ k,
          le_u32_lem (len_u32 d.payload) b₅ (omega arith),
          take_lem d.payload rest (len_u32 d.payload) (len_u32_lem d.payload l),
        ))

  read_payload :
      (p rest : Bytes)
      → IsU32 (length p)
      → (if ltb 0 (len_u32 p) then n.take (len_u32 p) (p ++ rest) else done (p ++ rest, []))
        ≡ done (rest, p)
  read_payload [] rest h = refl
  read_payload (x ∷ xs) rest h =
      rw (lt→ltb 0 (len_u32 (x ∷ xs)) (omega arith))
        (take_lem (x ∷ xs) rest _ (len_u32_lem (x ∷ xs) h))

  bcudp_ack_packet :
      (a : UdpAck) (rest : Bytes)
      → FitsWire deps (ack a)
      → bcudp deps n (serialize deps c (ack a) ++ rest) ≡ done (rest, ack a)
  unfolding serialize bcudp udp_ack
  bcudp_ack_packet a rest (h, g, k, l, m) =
      let b₇ = a.payload ++ rest in
      let b₆ = le_bytes 4 (len_u32 a.payload) ++ b₇ in
      let b₅ = le_bytes 4 a.maybe_latency ++ b₆ in
      let b₄ = le_bytes 4 a.packet_id ++ b₅ in
      let b₃ = le_bytes 4 a.group_id ++ b₄ in
      let b₂ = le_bytes 4 0 ++ b₃ in
      let b₁ = le_bytes 4 a.connection_id ++ b₂ in
      simp (c.le_u32_lem, c.le_i32_lem, c.slice_lem, c.tuple_cons, c.tuple_nil, append_assoc)
        (rw (
          verify_u32 n is_magic magic_header_udp_ack b₁ (omega arith) refl,
          le_i32_lem a.connection_id b₂ h,
          verify_u32 n (λ x. x == 0) 0 b₃ (omega arith) refl,
          verify_u32 n is_group a.group_id b₄ (ground arith) (ground arith),
          le_u32_lem a.packet_id b₅ k,
          le_u32_lem a.maybe_latency b₆ l,
          le_u32_lem (len_u32 a.payload) b₇ (omega arith),
          read_payload a.payload rest m,
        ))

  bcudp_discovery_packet :
      (d : UdpDiscovery) (rest : Bytes)
      → FitsWire deps (discovery d)
      → bcudp deps n (serialize deps c (discovery d) ++ rest) ≡ done (rest, discovery d)
  unfolding serialize bcudp udp_disc
  bcudp_discovery_packet d rest (h, k, back) =
      let xml = deps.xml_serialize d.payload in
      let enc = encrypt d.tid xml in
      let (plain, size) = decrypt-encrypt d.tid xml in
      let crc = calc_crc deps enc in
      let b₅ = enc ++ rest in
      let b₄ = le_bytes 4 crc ++ b₅ in
      let b₃ = le_bytes 4 d.tid ++ b₄ in
      let b₂ = le_bytes 4 1 ++ b₃ in
      let b₁ = le_bytes 4 (len_u32 enc) ++ b₂ in
      simp (c.le_u32_lem, c.slice_lem, c.tuple_cons, c.tuple_nil, append_assoc)
        (rw (
          verify_u32 n is_magic magic_header_udp_nego b₁ (omega arith) refl,
          le_u32_lem (len_u32 enc) b₂ (omega arith),
          verify_u32 n (λ x. x == 1) 1 b₃ (omega arith) refl,
          le_u32_lem d.tid b₄ h,
          le_u32_lem crc b₅ (calc_crc-IsU32 deps enc),
          take_lem enc rest (len_u32 enc) (omega arith),
          ==_self crc,
          plain,
          back,
        ))

  bcudp-serialize :
      (p : BcUdp) (rest : Bytes)
      → FitsWire deps p
      → bcudp deps n (serialize deps c p ++ rest) ≡ done (rest, p)
  bcudp-serialize (discovery d) rest h = bcudp_discovery_packet d rest h
  bcudp-serialize (ack a) rest h = bcudp_ack_packet a rest h
  bcudp-serialize (data_packet d) rest h = bcudp_data_packet d rest h

  -- A packet that fits the format is read back from its bytes as it was, and the buffer keeps
  -- exactly what follows them.
  pub deserialize-serialize :
      (p : BcUdp) (rest : Bytes)
      → FitsWire deps p
      → deserialize deps n (serialize deps c p ++ rest) ≡ done (rest, p)
  unfolding deserialize
  deserialize-serialize p rest h = rw (
    consumed_done BcUdp (bcudp deps n) (serialize deps c p) rest p (bcudp-serialize p rest h),
    drop-append_length (serialize deps c p) rest,
  )
