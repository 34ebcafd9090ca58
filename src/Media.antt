-- ===== src/Media.antt =====
-- crates/core/src/bcmedia: the media packets within the messages, and their codec.
pub mod Model
pub mod Ser
pub mod De
pub mod Infos
pub mod Frames
pub mod RoundTrip
pub mod Adpcm
pub mod Codex
pub mod Stream
pub mod Durations
mod Examples
