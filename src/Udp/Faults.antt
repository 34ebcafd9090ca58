-- ===== src/Udp/Faults.antt =====
-- The codec on what the other side sent, sound or damaged.
use neolink.Base.{
  ℕ, ◌≡◌, ◌≢◌, refl, arith, [], ◌++◌, length, Bool, true, false, ◌==◌, ==_ne, append_assoc,
  length-append, ◌≤◌,
}
use neolink.Base.Words.{Bytes, IsU32, le_bytes, length-le_bytes}
use neolink.Wire.{Nom, Cookie, panic, verify_u32}
use neolink.Udp.Model.{
  R2cDisc, D2cDisc, UdpXml, UdpDiscovery, c2d_s, c2d_c, d2c_cr, d2c_t, c2d_t, d2c_cfm, c2d_disc,
  d2c_disc, r2c_disc, c2m_q, m2c_qr, c2r_c, r2c_t, r2c_cr, c2r_cfm, c2d_a, c2d_hb, c2r_hb, d2c_hb,
  BcUdp, discovery, ack, data_packet, magic_header_udp_nego, magic_header_udp_ack,
  magic_header_udp_data,
}
use neolink.Udp.Crypto.{UdpDeps, calc_crc}
use neolink.Udp.Ser.{serialize}
use neolink.Udp.De.{udp_disc, bcudp, deserialize, is_magic}
use neolink.Udp.Codex.{
  Decoded, packet, failed, relay_terminate, camera_terminate, encode, decode, of_packet,
}
use neolink.Udp.RoundTrip.{FitsWire, deserialize-serialize}

-- A datagram that starts like a discovery packet.
abbrev pub disc_bytes : ℕ → ℕ → Bytes → Bytes
disc_bytes tid checksum enc =
    le_bytes 4 magic_header_udp_nego
    ++ (le_bytes 4 (length enc)
        ++ (le_bytes 4 1 ++ (le_bytes 4 tid ++ (le_bytes 4 checksum ++ enc))))

module _ (deps : UdpDeps) (n : Nom) where
  open n use {le_u32_lem, take_lem, consumed_panic}

  -- A discovery packet whose checksum does not fit its payload stops the program: the parser
  -- asserts that they agree instead of refusing the packet.
  pub deserialize_bad_checksum :
      (tid checksum : ℕ) (enc rest : Bytes)
      → IsU32 tid
      → IsU32 checksum
      → IsU32 (length enc)
      → checksum ≢ calc_crc deps enc
      → deserialize deps n (disc_bytes tid checksum enc ++ rest) ≡ panic
  unfolding deserialize
  deserialize_bad_checksum tid checksum enc rest h k l ne =
      rw (consumed_panic BcUdp (bcudp deps n) (disc_bytes tid checksum enc ++ rest) stops)
    where
      stops : bcudp deps n (disc_bytes tid checksum enc ++ rest) ≡ panic
      stops =
          let b₅ = enc ++ rest in
          let b₄ = le_bytes 4 checksum ++ b₅ in
          let b₃ = le_bytes 4 tid ++ b₄ in
          let b₂ = le_bytes 4 1 ++ b₃ in
          let b₁ = le_bytes 4 (length enc) ++ b₂ in
          simp append_assoc (
            unfold bcudp udp_disc in
            rw (
              verify_u32 n is_magic magic_header_udp_nego b₁ (omega arith) refl,
              le_u32_lem (length enc) b₂ l,
              verify_u32 n (λ x. x == 1) 1 b₃ (omega arith) refl,
              le_u32_lem tid b₄ h,
              le_u32_lem checksum b₅ k,
              take_lem enc rest (length enc) refl,
              ==_ne checksum (calc_crc deps enc) ne,
            ))

module _ (deps : UdpDeps) (c : Cookie) where
  serialize_long : (p : BcUdp) → 4 ≤ length (serialize deps c p)
  unfolding serialize
  serialize_long (discovery d) =
      rw (c.tuple_cons, c.le_u32_lem magic_header_udp_nego, length-append)
        (omega (arith, length-le_bytes 4 magic_header_udp_nego))
  serialize_long (ack d) =
      rw (c.tuple_cons, c.le_u32_lem magic_header_udp_ack, length-append)
        (omega (arith, length-le_bytes 4 magic_header_udp_ack))
  serialize_long (data_packet d) =
      rw (c.tuple_cons, c.le_u32_lem magic_header_udp_data, length-append)
        (omega (arith, length-le_bytes 4 magic_header_udp_data))

  serialize_nonempty :
      (p : BcUdp) (rest : Bytes) → (length (serialize deps c p ++ rest) == 0) ≡ false
  serialize_nonempty p rest =
      ground (arith, length-append (serialize deps c p) rest, serialize_long p)

-- A discovery packet that ends a connection.
abbrev pub ends : BcUdp → Bool
ends (discovery d) = elim d.payload [ r2c_disc x ↦ true | d2c_disc x ↦ true | _ ↦ false ]
ends _ = false

-- What a packet is answered with: the end of the connection for a disconnect, by its sender, and
-- otherwise the packet.
pub data Answers (p : BcUdp) (r : Decoded) : Type 0 where
  relay_left :
      (tid : ℕ) (x : R2cDisc)
      → p ≡ discovery (record { tid = tid; payload = r2c_disc x })
      → r ≡ failed relay_terminate
      → Answers p r
  camera_left :
      (tid : ℕ) (x : D2cDisc)
      → p ≡ discovery (record { tid = tid; payload = d2c_disc x })
      → r ≡ failed camera_terminate
      → Answers p r
  handed_over : ends p ≡ false → r ≡ packet p → Answers p r

of_discovery-Answers :
    (tid : ℕ) (x : UdpXml)
    → let d : UdpDiscovery = record { tid = tid; payload = x } in
      Answers (discovery d) (of_packet (discovery d))
of_discovery-Answers tid (r2c_disc x) = relay_left tid x refl refl
of_discovery-Answers tid (d2c_disc x) = camera_left tid x refl refl
of_discovery-Answers tid (c2d_s x) = handed_over refl refl
of_discovery-Answers tid (c2d_c x) = handed_over refl refl
of_discovery-Answers tid (d2c_cr x) = handed_over refl refl
of_discovery-Answers tid (d2c_t x) = handed_over refl refl
of_discovery-Answers tid (c2d_t x) = handed_over refl refl
of_discovery-Answers tid (d2c_cfm x) = handed_over refl refl
of_discovery-Answers tid (c2d_disc x) = handed_over refl refl
of_discovery-Answers tid (c2m_q x) = handed_over refl refl
of_discovery-Answers tid (m2c_qr x) = handed_over refl refl
of_discovery-Answers tid (c2r_c x) = handed_over refl refl
of_discovery-Answers tid (r2c_t x) = handed_over refl refl
of_discovery-Answers tid (r2c_cr x) = handed_over refl refl
of_discovery-Answers tid (c2r_cfm x) = handed_over refl refl
of_discovery-Answers tid (c2d_a x) = handed_over refl refl
of_discovery-Answers tid (c2d_hb x) = handed_over refl refl
of_discovery-Answers tid (c2r_hb x) = handed_over refl refl
of_discovery-Answers tid (d2c_hb x) = handed_over refl refl

of_packet-Answers : (p : BcUdp) → Answers p (of_packet p)
of_packet-Answers (discovery d) = of_discovery-Answers d.tid d.payload
of_packet-Answers (ack d) = handed_over refl refl
of_packet-Answers (data_packet d) = handed_over refl refl

-- Decoding what was encoded for a packet that fits the format ends the connection as left by the
-- relay or by the camera where the packet is the disconnect of that one, and otherwise gives the
-- packet; what follows it is left in the buffer.
pub decode-encode :
    (deps : UdpDeps) (n : Nom) (c : Cookie) (p : BcUdp) (rest : Bytes)
    → FitsWire deps p
    → Answers p (decode deps n (encode deps c p [] ++ rest)).0
      × ((decode deps n (encode deps c p [] ++ rest)).1 ≡ rest)
unfolding encode decode
decode-encode deps n c p rest h =
    rw (serialize_nonempty deps c p rest, deserialize-serialize deps n c p rest h)
      (of_packet-Answers p, refl)
