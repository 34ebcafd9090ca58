-- ===== src/Bc/Xml/Battery.antt =====
-- crates/core/src/bc/xml.rs: the battery.
use neolink.Base.{ℕ, List}
use neolink.Base.Words.{Bytes}

pub record BatteryInfo : Type 0 where
  pub channel_id : ℕ
  pub charge_status : Bytes
  pub adapter_status : Bytes
  pub voltage : ℕ  -- the bit pattern
  pub current : ℕ  -- the bit pattern
  pub temperature : ℕ  -- the bit pattern
  pub battery_percent : ℕ
  pub low_power : ℕ
  pub battery_version : ℕ

pub record BatteryList : Type 0 where
  pub version : Bytes
  pub battery_info : List BatteryInfo
