-- ===== src/Bc/Xml/Ptz.antt =====
-- crates/core/src/bc/xml.rs: movement and zoom.
use neolink.Base.{ℕ, List, Option}
use neolink.Base.Words.{Bytes}

pub record PtzControl : Type 0 where
  pub version : Bytes
  pub channel_id : ℕ
  pub speed : ℕ  -- the bit pattern
  pub command : Bytes

pub record Preset : Type 0 where
  pub id : ℕ
  pub name : Option Bytes
  pub command : Option Bytes

pub record PresetList : Type 0 where
  pub preset : List Preset

pub record PtzPreset : Type 0 where
  pub version : Bytes
  pub channel_id : ℕ
  pub preset_list : PresetList

pub record HelperPosition : Type 0 where
  pub max_pos : ℕ
  pub min_pos : ℕ
  pub cur_pos : ℕ

pub record PtzZoomFocus : Type 0 where
  pub version : Bytes
  pub channel_id : ℕ
  pub zoom : HelperPosition
  pub focus : HelperPosition

pub record StartZoomFocus : Type 0 where
  pub version : Bytes
  pub channel_id : ℕ
  pub command : Bytes
  pub move_pos : ℕ
