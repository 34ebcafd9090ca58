-- ===== src/Bc/Xml/Streams.antt =====
-- crates/core/src/bc/xml.rs: the streams and their encodings.
use neolink.Base.{ℕ, List}
use neolink.Base.Words.{Bytes}

pub record StreamResolution : Type 0 where
  pub width : ℕ
  pub height : ℕ

pub record EncodeTable : Type 0 where
  pub name : Bytes
  pub resolution : StreamResolution
  pub default_framerate : ℕ
  pub default_bitrate : ℕ
  pub framerate_table : Bytes
  pub bitrate_table : Bytes

pub record StreamInfo : Type 0 where
  pub channel_bits : ℕ
  pub encode_tables : List EncodeTable

pub record StreamInfoList : Type 0 where
  pub stream_infos : List StreamInfo
