-- ===== src/Udp/Codex.antt =====
-- crates/core/src/bcudp/codex.rs: the framing of datagrams.
use neolink.Base.{◌++◌, length, ◌==◌, if◌then◌else◌}
use neolink.Base.Words.{Bytes}
use neolink.Wire.{Nom, Cookie, IResult, done, incomplete, error, panic}
use neolink.Udp.Model.{BcUdp, discovery, ack, data_packet, UdpXml, UdpDiscovery, r2c_disc, d2c_disc}
use neolink.Udp.Crypto.{UdpDeps}
use neolink.Udp.Ser.{serialize}
use neolink.Udp.De.{deserialize}

pub data CodecError : Type 0 where
  relay_terminate camera_terminate nom_error : CodecError

-- `Result<Option<BcUdp>>`, and the abort of a failed assertion.
pub data Decoded : Type 0 where
  packet : BcUdp → Decoded
  no_packet : Decoded
  failed : CodecError → Decoded
  aborted : Decoded

-- The arms of the `match` for a discovery packet.
abbrev pub of_discovery : UdpDiscovery → UdpXml → Decoded
of_discovery d (r2c_disc x) = failed relay_terminate
of_discovery d (d2c_disc x) = failed camera_terminate
of_discovery d _ = packet (discovery d)

abbrev pub of_packet : BcUdp → Decoded
of_packet (discovery d) = of_discovery d d.payload
of_packet (ack a) = packet (ack a)
of_packet (data_packet d) = packet (data_packet d)

abbrev of_result : Bytes → IResult BcUdp → Decoded × Bytes
of_result src (done (rest, p)) = (of_packet p, rest)
of_result src incomplete = (no_packet, src)
of_result src error = (failed nom_error, src)
of_result src panic = (aborted, src)

module _ (deps : UdpDeps) where
  unfoldable pub encode : Cookie → BcUdp → Bytes → Bytes
  encode c item dst = dst ++ serialize deps c item

  -- The answer, and what is left of `src`.
  unfoldable pub decode : Nom → Bytes → Decoded × Bytes
  decode n src =
      if length src == 0 then (no_packet, src) else of_result src (deserialize deps n src)
