-- ===== src/Bc.antt =====
-- crates/core/src/bc/crypto.rs: the encryption of the Baichuan messages.
pub mod Credentials
pub mod Crypto
pub mod Model
pub mod Deps
pub mod Ser
pub mod De
pub mod Codex
pub mod Header
pub mod Parts
pub mod RoundTrip
pub mod Session
pub mod Login
pub mod Underflow
pub mod Xml
mod Examples
