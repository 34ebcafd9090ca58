-- ===== src/Bc/Xml/Smart.antt =====
-- crates/core/src/bc/xml.rs: detection zones, detections and their settings.
use neolink.Base.{ℕ, List, Option}
use neolink.Base.Words.{Bytes}

pub record SmartDetectItem : Type 0 where
  pub enable : ℕ
  pub ai_type : Bytes
  pub sesensitivity : ℕ
  pub stay_time : Option ℕ
  pub time_thresh : Option ℕ
  pub location : Option ℕ
  pub index : Option ℕ
  pub name : Option Bytes

pub record CrosslineDetect : Type 0 where
  pub version : Bytes
  pub channel_id : ℕ
  pub op : Option Bytes
  pub items : List SmartDetectItem

pub record IntrusionDetect : Type 0 where
  pub version : Bytes
  pub channel_id : ℕ
  pub op : Option Bytes
  pub items : List SmartDetectItem

pub record LoiteringDetect : Type 0 where
  pub version : Bytes
  pub channel_id : ℕ
  pub op : Option Bytes
  pub items : List SmartDetectItem

pub record LegacyDetect : Type 0 where
  pub version : Bytes
  pub channel_id : ℕ
  pub op : Option Bytes
  pub items : List SmartDetectItem

pub record LossDetect : Type 0 where
  pub version : Bytes
  pub channel_id : ℕ
  pub op : Option Bytes
  pub items : List SmartDetectItem

pub record YoloSubTypeList : Type 0 where
  pub sub_type : Option Bytes

pub record YoloWorldType : Type 0 where
  pub version : Bytes
  pub ai_type : Bytes
  pub sub_type_lists : List YoloSubTypeList

pub record YoloWorldEvent : Type 0 where
  pub channel : ℕ
  pub types : List YoloWorldType

pub record YoloWorldEventList : Type 0 where
  pub version : Bytes
  pub events : List YoloWorldEvent

pub record AiDetectCfg : Type 0 where
  pub version : Bytes
  pub channel_id : ℕ
  pub ai_type : Bytes
  pub sensitivity : Option ℕ
  pub stay_time : Option ℕ

pub record AiCfg : Type 0 where
  pub version : Bytes
  pub channel_id : ℕ
  pub cry_detect_ability : Option ℕ
  pub cry_detect_level : Option ℕ
  pub smart_track : Option ℕ
  pub smart_track_mode : Option ℕ
  pub smart_track_mode_ability : Option ℕ
  pub detect_type : Option Bytes
  pub smart_track_type : Option Bytes
  pub smart_track_pt : Option ℕ
  pub smart_track_object_stop_delay : Option ℕ
  pub smart_track_object_disappear_delay : Option ℕ
