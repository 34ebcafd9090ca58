-- ===== src/Bc/Xml/Talk.antt =====
-- crates/core/src/bc/xml.rs: talking back.
use neolink.Base.{ℕ, List, Option}
use neolink.Base.Words.{Bytes}

pub record AudioConfig : Type 0 where
  pub priority : Option ℕ
  pub audio_type : Bytes
  pub sample_rate : ℕ
  pub sample_precision : ℕ
  pub length_per_encoder : ℕ
  pub sound_track : Bytes

pub record TalkConfig : Type 0 where
  pub version : Bytes
  pub channel_id : ℕ
  pub duplex : Bytes
  pub audio_stream_mode : Bytes
  pub audio_config : AudioConfig

pub record DuplexList : Type 0 where
  pub duplex : Bytes

pub record AudioStreamModeList : Type 0 where
  pub audio_stream_mode : Bytes

pub record AudioConfigList : Type 0 where
  pub audio_config : AudioConfig

pub record TalkAbility : Type 0 where
  pub version : Bytes
  pub duplex_list : List DuplexList
  pub audio_stream_mode_list : List AudioStreamModeList
  pub audio_config_list : List AudioConfigList
