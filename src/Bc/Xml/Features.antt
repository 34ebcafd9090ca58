-- ===== src/Bc/Xml/Features.antt =====
-- crates/core/src/bc/xml.rs: what the camera has.
use neolink.Base.{ℕ, List, Option}
use neolink.Base.Words.{Bytes}

pub record SmartHomeItem : Type 0 where
  pub name : Bytes
  pub ver : ℕ

pub record SmartHome : Type 0 where
  pub version : ℕ
  pub items : List SmartHomeItem

pub record SupportItem : Type 0 where
  pub chn_id : ℕ
  pub ptz_type : Option ℕ
  pub rf_cfg : Option ℕ
  pub no_audio : Option ℕ
  pub auto_focus : Option ℕ
  pub video_clip : Option ℕ
  pub battery : Option ℕ
  pub isp_cfg : Option ℕ
  pub osd_cfg : Option ℕ
  pub bat_analysis : Option ℕ
  pub dynamic_reso : Option ℕ
  pub audio_version : Option ℕ
  pub led_ctrl : Option ℕ
  pub ptz_control : Option ℕ
  pub new_isp_cfg : Option ℕ
  pub ptz_preset : Option ℕ
  pub ptz_patrol : Option ℕ
  pub ptz_tattern : Option ℕ
  pub auto_pt : Option ℕ
  pub h264_profile : Option ℕ
  pub motion : Option ℕ
  pub ai_type : Option ℕ
  pub ai_animal_type : Option ℕ
  pub timelapse : Option ℕ
  pub snap : Option ℕ
  pub enc_ctrl : Option ℕ
  pub zf_backlash : Option ℕ
  pub iot_link_ability : Option ℕ
  pub ipc_audio_talk : Option ℕ
  pub bino_cfg : Option ℕ
  pub thumbnail : Option ℕ

pub record Support : Type 0 where
  pub version : Bytes
  pub io_input_port_num : Option ℕ
  pub io_output_port_num : Option ℕ
  pub disk_num : Option ℕ
  pub channel_num : Option ℕ
  pub audio_num : Option ℕ
  pub ptz_mode : Option Bytes
  pub ptz_cfg : Option ℕ
  pub b485 : Option ℕ
  pub auto_update : Option ℕ
  pub push_alarm : Option ℕ
  pub ftp : Option ℕ
  pub ftp_test : Option ℕ
  pub email : Option ℕ
  pub wifi : Option ℕ
  pub records : Option ℕ
  pub wifi_test : Option ℕ
  pub rtsp : Option ℕ
  pub onvif : Option ℕ
  pub audio_talk : Option ℕ
  pub rf_version : Option ℕ
  pub rtmp : Option ℕ
  pub no_extern_stream : Option ℕ
  pub time_format : Option ℕ
  pub ddns_version : Option ℕ
  pub email_version : Option ℕ
  pub push_version : Option ℕ
  pub push_type : Option ℕ
  pub audio_alarm : Option ℕ
  pub ap_mode : Option ℕ
  pub cloud_version : Option ℕ
  pub replay_version : Option ℕ
  pub mob_com_version : Option ℕ
  pub export_import : Option ℕ
  pub language_ver : Option ℕ
  pub video_standard : Option ℕ
  pub sync_time : Option ℕ
  pub net_port : Option ℕ
  pub nas_version : Option ℕ
  pub need_reboot : Option ℕ
  pub reboot : Option ℕ
  pub audio_cfg : Option ℕ
  pub network_diagnosis : Option ℕ
  pub height_diff_adjust : Option ℕ
  pub upgrade : Option ℕ
  pub gps : Option ℕ
  pub power_saving_cfg : Option ℕ
  pub login_locked : Option ℕ
  pub view_plan : Option ℕ
  pub preview_replay_limit : Option ℕ
  pub iot_link : Option ℕ
  pub iot_link_action_max : Option ℕ
  pub record_cfg : Option ℕ
  pub large_battery : Option ℕ
  pub smart_home : Option SmartHome
  pub items : List SupportItem
