-- ===== src/Bc/Xml/Alarm.antt =====
-- crates/core/src/bc/xml.rs: motion and the triggers of the smart detectors.
use neolink.Base.{ℕ, List, Option}
use neolink.Base.Words.{Bytes}

pub record SmartAiSubItem : Type 0 where
  pub index : Option ℕ
  pub ai_type : Option Bytes

pub record SmartAiType : Type 0 where
  pub smart_type : Bytes
  pub index : Option ℕ
  pub sub_list : List SmartAiSubItem

pub record SmartAiTypeList : Type 0 where
  pub types : List SmartAiType

pub record AlarmEvent : Type 0 where
  pub version : Bytes
  pub channel_id : ℕ
  pub status : Bytes
  pub ai_type : Option Bytes
  pub recording : ℕ  -- the bit pattern
  pub time_stamp : ℕ  -- the bit pattern
  pub smart_ai_type_list : Option SmartAiTypeList

pub record AlarmEventList : Type 0 where
  pub version : Bytes
  pub alarm_events : List AlarmEvent
