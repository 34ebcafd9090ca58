-- ===== src/Bc/Xml/Login.antt =====
-- crates/core/src/bc/xml.rs: login, versions and the start of a stream.
use neolink.Base.{ℕ, Option}
use neolink.Base.Words.{Bytes}

pub record Encryption : Type 0 where
  pub version : Bytes
  pub type : Bytes
  pub nonce : Bytes

pub record LoginUser : Type 0 where
  pub version : Bytes
  pub user_name : Bytes
  pub password : Bytes
  pub user_ver : ℕ

pub record LoginNet : Type 0 where
  pub version : Bytes
  pub type : Bytes
  pub udp_port : ℕ

pub record Resolution : Type 0 where
  pub name : Bytes
  pub width : ℕ
  pub height : ℕ

pub record DeviceInfo : Type 0 where
  pub version : Option Bytes
  pub resolution : Option Resolution

pub record VersionInfo : Type 0 where
  pub name : Bytes
  pub model : Option Bytes
  pub serial_number : Bytes
  pub build_day : Bytes
  pub hardware_version : Bytes
  pub cfg_version : Bytes
  pub firmware_version : Bytes
  pub detail : Bytes

pub record Preview : Type 0 where
  pub version : Bytes
  pub channel_id : ℕ
  pub handle : ℕ
  pub stream_type : Option Bytes

pub record Extension : Type 0 where
  pub version : Bytes
  pub binary_data : Option ℕ
  pub user_name : Option Bytes
  pub token : Option Bytes
  pub channel_id : Option ℕ
  pub rf_id : Option ℕ
  pub check_pos : Option ℕ
  pub check_value : Option ℕ  -- the bit pattern
  pub encrypt_len : Option ℕ
