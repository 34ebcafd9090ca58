-- ===== src/Bc/Xml/Ports.antt =====
-- crates/core/src/bc/xml.rs: the ports of the servers.
use neolink.Base.{ℕ, Option}
use neolink.Base.Words.{Bytes}

pub record ServerPort : Type 0 where
  pub version : Bytes
  pub port : ℕ
  pub enable : Option ℕ

pub record HttpPort : Type 0 where
  pub version : Bytes
  pub port : ℕ
  pub enable : Option ℕ

pub record HttpsPort : Type 0 where
  pub version : Bytes
  pub port : ℕ
  pub enable : Option ℕ

pub record RtspPort : Type 0 where
  pub version : Bytes
  pub port : ℕ
  pub enable : Option ℕ

pub record RtmpPort : Type 0 where
  pub version : Bytes
  pub port : ℕ
  pub enable : Option ℕ

pub record OnvifPort : Type 0 where
  pub version : Bytes
  pub port : ℕ
  pub enable : Option ℕ
