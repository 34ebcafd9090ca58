-- ===== src/Udp/Examples.antt =====
-- The packet formats at concrete packets.
use neolink.Base.{◌≡◌, refl, arith, [], ◌∷◌, ◌++◌, length, some, inl}
use neolink.Base.Words.{le_bytes}
use neolink.Wire.{done, panic, nom, cookie}
use neolink.Udp.Model.{BcUdp, discovery, ack, UdpXml, d2c_disc}
use neolink.Udp.Crypto.{UdpDeps, calc_crc}
use neolink.Udp.Ser.{serialize}
use neolink.Udp.De.{deserialize, bcudp, udp_ack}
use neolink.Udp.Codex.{encode, decode}
use neolink.Udp.RoundTrip.{deserialize-serialize}
use neolink.Udp.Faults.{Answers, disc_bytes, deserialize_bad_checksum, decode-encode}

abbrev goodbye : UdpXml
goodbye = d2c_disc (record { cid = 82_000; did = 80 })

abbrev deps : UdpDeps
deps = record {
  crc32 = λ initial b. 7;
  xml_serialize = λ x. 60 ∷ 80 ∷ [];
  xml_try_parse = λ b. some goodbye;
  crc32-IsU32 = λ initial b. omega arith;
}

abbrev an_ack : BcUdp
an_ack = ack (record {
  connection_id = 82_000;
  group_id = 0;
  packet_id = 12;
  maybe_latency = 2528;
  payload = 0 ∷ 1 ∷ 1 ∷ [];
})

abbrev a_goodbye : BcUdp
a_goodbye = discovery (record { tid = 87; payload = goodbye })

-- The first bytes of the magic, and the number of bytes of the packet.
ack_bytes : length (serialize deps cookie an_ack) ≡ 31
unfolding serialize cookie le_bytes
ack_bytes = refl

-- The words are read back by the parsers themselves.
ack_runs : deserialize deps nom (serialize deps cookie an_ack ++ (9 ∷ [])) ≡ done (9 ∷ [], an_ack)
unfolding serialize cookie nom deserialize le_bytes bcudp udp_ack
ack_runs = refl

deserialize-serialize_example :
    deserialize deps nom (serialize deps cookie an_ack ++ (9 ∷ [])) ≡ done (9 ∷ [], an_ack)
deserialize-serialize_example =
    deserialize-serialize deps nom cookie an_ack (9 ∷ [])
      (omega arith, inl refl, omega arith, omega arith, omega arith)

deserialize_bad_checksum_example :
    deserialize deps nom (disc_bytes 87 5 (60 ∷ 80 ∷ []) ++ []) ≡ panic
unfolding calc_crc
deserialize_bad_checksum_example =
    deserialize_bad_checksum deps nom 87 5 (60 ∷ 80 ∷ []) [] (omega arith) (omega arith)
      (omega arith) (omega arith)

decode-encode_example :
    Answers a_goodbye (decode deps nom (encode deps cookie a_goodbye [] ++ (9 ∷ []))).0
    × ((decode deps nom (encode deps cookie a_goodbye [] ++ (9 ∷ []))).1 ≡ 9 ∷ [])
decode-encode_example =
    decode-encode deps nom cookie a_goodbye (9 ∷ []) (omega arith, omega arith, refl)
