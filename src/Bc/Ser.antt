-- ===== src/Bc/Ser.antt =====
-- crates/core/src/bc/ser.rs: a message as bytes.
use neolink.Base.{
  ℕ, [], ◌∷◌, ◌++◌, length, replicate, ◌&&◌, Option, none, some, ◌==◌, if◌then◌else◌,
}
use neolink.Base.Words.{Bytes, u32}
use neolink.Wire.{Cookie}
use neolink.Bc.Crypto.{EncryptionProtocol, encrypt}
use neolink.Bc.Deps.{BcDeps}
use neolink.Bc.Model.{
  Bc, BcMeta, BcHeader, ModernMsg, LegacyMsg, login_msg, login_upgrade, unknown_msg, legacy_msg,
  modern_msg, magic_header, has_payload_offset, from_meta,
}
use neolink.Bc.Xml.{BcPayloads, bc_xml, binary}
use neolink.Bc.Xml.Login.{Extension}

-- The bytes, `GenError`, or a panic.
pub data Serialized : Type 0 where
  written : Bytes → Serialized
  gen_error : Serialized
  aborted : Serialized

module _ (deps : BcDeps) (c : Cookie) where
  open c use {le_u8, le_u16, le_u32, slice, tuple}

  unfoldable pub bc_ext : ℕ → Extension → EncryptionProtocol → Bytes
  bc_ext enc_offset xml encryption_protocol =
      slice (encrypt deps.cfb encryption_protocol enc_offset (deps.ext_serialize xml))

  unfoldable pub bc_payload : ℕ → BcPayloads → EncryptionProtocol → Bytes
  bc_payload enc_offset (bc_xml x) encryption_protocol =
      slice (encrypt deps.cfb encryption_protocol enc_offset (deps.xml_serialize x))
  bc_payload enc_offset (binary x) encryption_protocol = slice x

  -- `opt` and `opt_ref`: nothing is written for no value.
  abbrev pub opt : {A : Type 0} → Option A → (A → Bytes) → Bytes
  opt none ser = []
  opt (some value) ser = ser value

  unfoldable pub bc_header : BcHeader → Bytes
  bc_header header = tuple (
      le_u32 magic_header
      ∷ le_u32 header.msg_id
      ∷ le_u32 header.body_len
      ∷ le_u8 header.channel_id
      ∷ le_u8 header.stream_type
      ∷ le_u16 header.msg_num
      ∷ le_u16 header.response_code
      ∷ le_u16 header.class
      ∷ opt header.payload_offset le_u32
      ∷ [])

  unfoldable pub bc_legacy : LegacyMsg → Serialized
  bc_legacy (login_msg username password) =
      if length username == 32 && length password == 32
      then written (tuple (slice username ∷ slice password ∷ slice (replicate 1772 0) ∷ []))
      else gen_error
  bc_legacy login_upgrade = written (slice [])
  bc_legacy unknown_msg = aborted

  -- The header, once the body is known, and the body.
  abbrev pub framed : BcMeta → Option ℕ → Bytes → Bytes
  framed meta payload_offset body_buf =
      tuple
        (bc_header (from_meta meta (u32 (length body_buf)) payload_offset) ∷ slice body_buf ∷ [])

  abbrev pub framed_legacy : BcMeta → Serialized → Serialized
  framed_legacy meta (written body_buf) = written (framed meta none body_buf)
  framed_legacy meta gen_error = gen_error
  framed_legacy meta aborted = aborted

  -- The extension as it stands in the body.
  unfoldable pub ext_buf : BcMeta → ModernMsg → EncryptionProtocol → Bytes
  ext_buf meta modern encryption_protocol =
      opt modern.extension (λ ext. bc_ext meta.channel_id ext encryption_protocol)

  unfoldable pub payload_buf : BcMeta → ModernMsg → EncryptionProtocol → Bytes
  payload_buf meta modern encryption_protocol =
      opt modern.payload (λ payload. bc_payload meta.channel_id payload encryption_protocol)

  -- The length of the extension, which is 0 if there is none.
  unfoldable pub offset_of : BcMeta → Bytes → Option ℕ
  offset_of meta ext = if has_payload_offset meta.class then some (u32 (length ext)) else none

  unfoldable pub serialize_modern : BcMeta → ModernMsg → EncryptionProtocol → Bytes
  serialize_modern meta modern encryption_protocol =
      let ext = ext_buf meta modern encryption_protocol in
      framed meta (offset_of meta ext) (ext ++ payload_buf meta modern encryption_protocol)

  unfoldable pub serialize : Bc → EncryptionProtocol → Serialized
  serialize bc encryption_protocol = serialize_body bc.body
    where
      serialize_body : neolink.Bc.Model.BcBody → Serialized
      serialize_body (modern_msg modern) =
          written (serialize_modern bc.meta modern encryption_protocol)
      serialize_body (legacy_msg legacy) = framed_legacy bc.meta (bc_legacy legacy)
