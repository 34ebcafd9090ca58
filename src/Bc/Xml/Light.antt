-- ===== src/Bc/Xml/Light.antt =====
-- crates/core/src/bc/xml.rs: the floodlight.
use neolink.Base.{ℕ, List, Option}
use neolink.Base.Words.{Bytes}

pub record FloodlightStatus : Type 0 where
  pub channel_id : ℕ
  pub status : ℕ

pub record FloodlightStatusList : Type 0 where
  pub version : Bytes
  pub floodlight_status_list : List FloodlightStatus

pub record FloodlightManual : Type 0 where
  pub version : Bytes
  pub channel_id : ℕ
  pub status : ℕ
  pub duration : ℕ

pub record ScheduleFloodLight : Type 0 where
  pub start_hour : ℕ
  pub start_min : Option ℕ
  pub end_hour : ℕ
  pub end_min : Option ℕ

pub record LightSensThreshold : Type 0 where
  pub min : Option ℕ
  pub max : Option ℕ
  pub light_cur : ℕ
  pub dark_cur : ℕ
  pub light_def : Option ℕ
  pub dark_def : Option ℕ

pub record FloodlightScheduleList : Type 0 where
  pub max_num : ℕ

pub record AlarmBrightness : Type 0 where
  pub min : Option ℕ
  pub max : Option ℕ
  pub cur : ℕ
  pub def : Option ℕ

pub record AlarmDelay : Type 0 where
  pub min : Option ℕ
  pub max : Option ℕ
  pub cur : ℕ
  pub def : Option ℕ

pub record NightLongViewMultiBrightness : Type 0 where
  pub enable : ℕ
  pub alarm_brightness : AlarmBrightness
  pub alarm_delay : AlarmDelay

pub record FloodlightTask : Type 0 where
  pub version : Bytes
  pub channel : ℕ
  pub alarm_mode : ℕ
  pub enable : ℕ
  pub last_alarm_mode : ℕ
  pub preview_auto : ℕ
  pub duration : ℕ
  pub brightness_cur : ℕ
  pub brightness_max : Option ℕ
  pub brightness_min : Option ℕ
  pub schedule : ScheduleFloodLight
  pub light_sens_threshold : LightSensThreshold
  pub floodlight_schedule_list : FloodlightScheduleList
  pub night_long_view_multi_brightness : NightLongViewMultiBrightness
  pub detect_type : Bytes
