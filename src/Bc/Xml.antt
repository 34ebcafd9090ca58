-- ===== src/Bc/Xml.antt =====
-- crates/core/src/bc/xml.rs: the payloads of the messages. Texts are their bytes, and a number of
-- a fixed width is its value, or its bit pattern where it has a sign or a fraction.
pub mod Login
pub mod System
pub mod Light
pub mod Talk
pub mod Alarm
pub mod Ptz
pub mod Battery
pub mod Ability
pub mod Streams
pub mod Features
pub mod Ports
pub mod Smart
use neolink.Base.{Option, none}
use neolink.Base.Words.{Bytes}
use Login.{Encryption, LoginUser, LoginNet, DeviceInfo, VersionInfo, Preview}
use System.{
  SystemGeneral, Norm, LedState, RfAlarmCfg, PushInfo, LinkType, Snap, Uid, AudioPlayInfo, Email,
  EmailTask, UserList,
}
use Talk.{TalkConfig, TalkAbility}
use Alarm.{AlarmEventList}
use Ptz.{PtzControl, PtzPreset, PtzZoomFocus, StartZoomFocus}
use Light.{FloodlightManual, FloodlightStatusList, FloodlightTask}
use Battery.{BatteryList, BatteryInfo}
use Ability.{AbilityInfo}
use Streams.{StreamInfoList}
use Features.{Support}
use Ports.{ServerPort, HttpPort, HttpsPort, RtspPort, RtmpPort, OnvifPort}
use Smart.{
  CrosslineDetect, IntrusionDetect, LoiteringDetect, LegacyDetect, LossDetect, YoloWorldEventList,
  AiDetectCfg, AiCfg,
}

pub record BcXml : Type 0 where
  pub encryption : Option Encryption
  pub login_user : Option LoginUser
  pub login_net : Option LoginNet
  pub device_info : Option DeviceInfo
  pub version_info : Option VersionInfo
  pub preview : Option Preview
  pub system_general : Option SystemGeneral
  pub norm : Option Norm
  pub led_state : Option LedState
  pub talk_config : Option TalkConfig
  pub rf_alarm_cfg : Option RfAlarmCfg
  pub talk_ability : Option TalkAbility
  pub alarm_event_list : Option AlarmEventList
  pub ptz_control : Option PtzControl
  pub floodlight_manual : Option FloodlightManual
  pub floodlight_status_list : Option FloodlightStatusList
  pub ptz_preset : Option PtzPreset
  pub battery_list : Option BatteryList
  pub battery_info : Option BatteryInfo
  pub ability_info : Option AbilityInfo
  pub push_info : Option PushInfo
  pub link_type : Option LinkType
  pub snap : Option Snap
  pub stream_info_list : Option StreamInfoList
  pub uid : Option Uid
  pub floodlight_task : Option FloodlightTask
  pub ptz_zoom_focus : Option PtzZoomFocus
  pub start_zoom_focus : Option StartZoomFocus
  pub support : Option Support
  pub audio_play_info : Option AudioPlayInfo
  pub server_port : Option ServerPort
  pub http_port : Option HttpPort
  pub https_port : Option HttpsPort
  pub rtsp_port : Option RtspPort
  pub rtmp_port : Option RtmpPort
  pub onvif_port : Option OnvifPort
  pub email : Option Email
  pub email_task : Option EmailTask
  pub user_list : Option UserList
  pub crossline_detect : Option CrosslineDetect
  pub intrusion_detect : Option IntrusionDetect
  pub loitering_detect : Option LoiteringDetect
  pub legacy_detect : Option LegacyDetect
  pub loss_detect : Option LossDetect
  pub yolo_world_event_list : Option YoloWorldEventList
  pub ai_detect_cfg : Option AiDetectCfg
  pub ai_cfg : Option AiCfg

-- A message carries a text or bytes.
pub data BcPayloads : Type 0 where
  bc_xml : BcXml → BcPayloads
  binary : Bytes → BcPayloads

-- `BcXml::default()`
abbrev pub default_xml : BcXml
default_xml = record {
  encryption = none;
  login_user = none;
  login_net = none;
  device_info = none;
  version_info = none;
  preview = none;
  system_general = none;
  norm = none;
  led_state = none;
  talk_config = none;
  rf_alarm_cfg = none;
  talk_ability = none;
  alarm_event_list = none;
  ptz_control = none;
  floodlight_manual = none;
  floodlight_status_list = none;
  ptz_preset = none;
  battery_list = none;
  battery_info = none;
  ability_info = none;
  push_info = none;
  link_type = none;
  snap = none;
  stream_info_list = none;
  uid = none;
  floodlight_task = none;
  ptz_zoom_focus = none;
  start_zoom_focus = none;
  support = none;
  audio_play_info = none;
  server_port = none;
  http_port = none;
  https_port = none;
  rtsp_port = none;
  rtmp_port = none;
  onvif_port = none;
  email = none;
  email_task = none;
  user_list = none;
  crossline_detect = none;
  intrusion_detect = none;
  loitering_detect = none;
  legacy_detect = none;
  loss_detect = none;
  yolo_world_event_list = none;
  ai_detect_cfg = none;
  ai_cfg = none;
}
