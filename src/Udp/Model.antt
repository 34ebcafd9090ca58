-- ===== src/Udp/Model.antt =====
-- crates/core/src/bcudp/model.rs, and the payloads of bcudp/xml.rs.
use Prim.Native.String.{String}
use neolink.Base.{ℕ, Bool, Option, []}
use neolink.Base.Words.{Bytes}

pub record IpPort : Type 0 where
  pub ip : String
  pub port : ℕ

pub record PortList : Type 0 where
  pub port : ℕ

pub record C2dS : Type 0 where
  pub to : PortList

pub record ClientList : Type 0 where
  pub port : ℕ

pub record C2dC : Type 0 where
  pub uid : String
  pub cli : ClientList
  pub cid : ℕ
  pub mtu : ℕ
  pub debug : Bool
  pub os : String

pub record Timer : Type 0 where
  pub def : ℕ
  pub hb : ℕ
  pub hbt : ℕ

pub record D2cCr : Type 0 where
  pub timer : Timer
  pub rsp : ℕ
  pub cid : ℕ
  pub did : ℕ

pub record C2dDisc : Type 0 where
  pub cid : ℕ
  pub did : ℕ

pub record D2cDisc : Type 0 where
  pub cid : ℕ
  pub did : ℕ

pub record R2cDisc : Type 0 where
  pub sid : ℕ

pub record D2cT : Type 0 where
  pub sid : ℕ
  pub conn : String
  pub cid : ℕ
  pub did : ℕ

pub record C2dT : Type 0 where
  pub sid : ℕ
  pub conn : String
  pub cid : ℕ
  pub mtu : ℕ

pub record C2mQ : Type 0 where
  pub uid : String
  pub os : String

pub record M2cQr : Type 0 where
  pub reg : Option IpPort
  pub relay : Option IpPort
  pub log : Option IpPort
  pub t : Option IpPort

pub record C2rC : Type 0 where
  pub uid : String
  pub cli : IpPort
  pub relay : IpPort
  pub cid : ℕ
  pub debug : Bool
  pub family : ℕ
  pub os : String
  pub revision : Option ℕ

pub record R2cT : Type 0 where
  pub dmap : Option IpPort
  pub dev : Option IpPort
  pub cid : ℕ
  pub sid : ℕ

pub record R2cCr : Type 0 where
  pub dev : Option IpPort
  pub dmap : Option IpPort
  pub relay : Option IpPort
  pub relayt : Option IpPort
  pub nat : String
  pub sid : Option ℕ
  pub rsp : ℕ
  pub ac : ℕ

pub record D2cCfm : Type 0 where
  pub sid : ℕ
  pub conn : String
  pub rsp : ℕ
  pub cid : ℕ
  pub did : ℕ
  pub time_r : Option ℕ

pub record C2rCfm : Type 0 where
  pub sid : ℕ
  pub conn : String
  pub rsp : ℕ
  pub cid : ℕ
  pub did : ℕ

pub record C2dA : Type 0 where
  pub sid : ℕ
  pub conn : String
  pub cid : ℕ
  pub did : ℕ
  pub mtu : ℕ

pub record C2dHb : Type 0 where
  pub cid : ℕ
  pub did : ℕ

pub record C2rHb : Type 0 where
  pub sid : ℕ
  pub cid : ℕ
  pub did : ℕ

pub record D2cHb : Type 0 where
  pub cid : ℕ
  pub did : ℕ

-- The payload of a discovery packet.
pub data UdpXml : Type 0 where
  c2d_s : C2dS → UdpXml
  c2d_c : C2dC → UdpXml
  d2c_cr : D2cCr → UdpXml
  d2c_t : D2cT → UdpXml
  c2d_t : C2dT → UdpXml
  d2c_cfm : D2cCfm → UdpXml
  c2d_disc : C2dDisc → UdpXml
  d2c_disc : D2cDisc → UdpXml
  r2c_disc : R2cDisc → UdpXml
  c2m_q : C2mQ → UdpXml
  m2c_qr : M2cQr → UdpXml
  c2r_c : C2rC → UdpXml
  r2c_t : R2cT → UdpXml
  r2c_cr : R2cCr → UdpXml
  c2r_cfm : C2rCfm → UdpXml
  c2d_a : C2dA → UdpXml
  c2d_hb : C2dHb → UdpXml
  c2r_hb : C2rHb → UdpXml
  d2c_hb : D2cHb → UdpXml

abbrev pub magic_header_udp_nego : ℕ
magic_header_udp_nego = 0x2a87cf3a

abbrev pub magic_header_udp_ack : ℕ
magic_header_udp_ack = 0x2a87cf20

abbrev pub magic_header_udp_data : ℕ
magic_header_udp_data = 0x2a87cf10

pub record UdpDiscovery : Type 0 where
  pub tid : ℕ
  pub payload : UdpXml

pub record UdpAck : Type 0 where
  pub connection_id : ℕ
  pub group_id : ℕ
  pub packet_id : ℕ
  pub maybe_latency : ℕ
  pub payload : Bytes

-- `UdpAck::empty`: nothing has been received yet.
unfoldable pub empty : ℕ → UdpAck
empty connection_id = record {
  connection_id = connection_id;
  group_id = 0xffff_ffff;
  packet_id = 0xffff_ffff;
  maybe_latency = 0;
  payload = [];
}

pub record UdpData : Type 0 where
  pub connection_id : ℕ
  pub packet_id : ℕ
  pub payload : Bytes

pub data BcUdp : Type 0 where
  discovery : UdpDiscovery → BcUdp
  ack : UdpAck → BcUdp
  data_packet : UdpData → BcUdp

unfoldable pub get_connection_id : BcUdp → ℕ
get_connection_id (discovery d) = 0
get_connection_id (ack a) = a.connection_id
get_connection_id (data_packet d) = d.connection_id
