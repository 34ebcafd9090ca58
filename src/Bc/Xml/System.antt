-- ===== src/Bc/Xml/System.antt =====
-- crates/core/src/bc/xml.rs: the clock, the name, the lamps, the schedules and the users.
use neolink.Base.{ℕ, List, Option}
use neolink.Base.Words.{Bytes}

pub record SystemGeneral : Type 0 where
  pub version : Bytes
  pub time_zone : Option ℕ  -- the bit pattern
  pub year : Option ℕ  -- the bit pattern
  pub month : Option ℕ
  pub day : Option ℕ
  pub hour : Option ℕ
  pub minute : Option ℕ
  pub second : Option ℕ
  pub osd_format : Option Bytes
  pub time_format : Option ℕ
  pub language : Option Bytes
  pub device_name : Option Bytes

pub record Norm : Type 0 where
  pub version : Bytes

pub record LedState : Type 0 where
  pub version : Bytes
  pub channel_id : ℕ
  pub led_version : Option ℕ
  pub state : Bytes
  pub light_state : Bytes

pub record TimeBlock : Type 0 where
  pub enable : ℕ
  pub week_day : Bytes
  pub begin_hour : ℕ
  pub end_hour : ℕ

pub record TimeBlockList : Type 0 where
  pub time_block : List TimeBlock

pub record AlarmHandleItem : Type 0 where
  pub channel : ℕ
  pub handle_type : Bytes

pub record AlarmHandle : Type 0 where
  pub item : List AlarmHandleItem

pub record RfAlarmCfg : Type 0 where
  pub version : Bytes
  pub rf_id : ℕ
  pub enable : ℕ
  pub sensitivity : ℕ
  pub sensi_value : ℕ
  pub reduce_false_alarm : ℕ
  pub time_block_list : TimeBlockList
  pub alarm_handle : AlarmHandle

pub record AudioPlayInfo : Type 0 where
  pub channel_id : ℕ
  pub play_mode : ℕ
  pub play_duration : ℕ
  pub play_times : ℕ
  pub on_off : ℕ

pub record Email : Type 0 where
  pub version : Bytes
  pub smtp_server : Bytes
  pub user_name : Bytes
  pub password : Bytes
  pub address1 : Bytes
  pub address2 : Bytes
  pub address3 : Bytes
  pub smtp_port : ℕ
  pub send_nickname : Bytes
  pub attachment : ℕ
  pub attachment_type : Option Bytes
  pub text_type : Bytes
  pub ssl : ℕ
  pub interval : ℕ
  pub sender_max_len : Option ℕ

pub record Schedule : Type 0 where
  pub alarm_type : Bytes
  pub time_block_list : TimeBlockList

pub record ScheduleList : Type 0 where
  pub schedule : Schedule

pub record EmailTask : Type 0 where
  pub version : Bytes
  pub channel_id : ℕ
  pub enable : ℕ
  pub schedule_list : Option ScheduleList

pub record User : Type 0 where
  pub user_name : Bytes
  pub password : Option Bytes
  pub user_id : Option ℕ
  pub user_level : ℕ
  pub login_state : Option ℕ
  pub user_set_state : Bytes

pub record UserList : Type 0 where
  pub version : Bytes
  pub user_list : Option (List User)

pub record PushInfo : Type 0 where
  pub token : Bytes
  pub phone_type : Bytes
  pub client_id : Bytes

pub record LinkType : Type 0 where
  pub link_type : Bytes

pub record Snap : Type 0 where
  pub version : Bytes
  pub channel_id : ℕ
  pub logic_channel : Option ℕ
  pub time : ℕ
  pub full_frame : Option ℕ
  pub stream_type : Option Bytes
  pub file_name : Option Bytes
  pub picture_size : Option ℕ

pub record Uid : Type 0 where
  pub version : Bytes
  pub uid : Bytes
