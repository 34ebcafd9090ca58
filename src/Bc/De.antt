-- ===== src/Bc/De.antt =====
-- crates/core/src/bc/de.rs: a message from bytes. What `debug` prints is left out.
use neolink.Base.{
  ℕ, ◌+◌, ◌-◌, ◌/◌, ◌%◌, length, take, drop, Bool, false, ◌||◌, Option, none, some, ◌==◌, leb, ltb,
  if◌then◌else◌,
}
use neolink.Base.Words.{Bytes}
use neolink.Base.Utf8.{from_utf8}
use neolink.Wire.{Nom, IResult, done, error, panic, ◌>>=◌}
use neolink.Bc.Crypto.{EncryptionProtocol, unencrypted, bc_encrypt, aes, full_aes, decrypt}
use neolink.Bc.Deps.{BcDeps}
use neolink.Bc.Model.{
  Bc, BcHeader, BcBody, BcContext, ModernMsg, LegacyMsg, login_msg, unknown_msg, legacy_msg,
  modern_msg, magic_header, magic_header_rev, msg_id_login, has_payload_offset, is_modern, to_meta,
  contains,
}
use neolink.Bc.Xml.{BcXml, BcPayloads, bc_xml, binary}
use neolink.Bc.Xml.Login.{Extension}

abbrev pub is_magic : ℕ → Bool
is_magic x = x == magic_header || x == magic_header_rev

-- `payload_offset.unwrap_or_default()`
abbrev pub ext_len : Option ℕ → ℕ
ext_len none = 0
ext_len (some payload_offset) = payload_offset

-- During the login BCEncrypt is the most.
abbrev pub at_login : EncryptionProtocol → EncryptionProtocol
at_login unencrypted = unencrypted
at_login bc_encrypt = bc_encrypt
at_login (aes key) = bc_encrypt
at_login (full_aes key) = bc_encrypt

-- `& 0xff` is written as a remainder.
abbrev pub sets_encryption : ℕ → Bool
sets_encryption response_code = response_code / 256 % 256 == 0xdd

unfoldable pub payload_protocol : BcHeader → EncryptionProtocol → EncryptionProtocol
payload_protocol header context =
    if header.msg_id == 1
    then if sets_encryption header.response_code
      then if header.response_code % 256 == 0 then unencrypted else bc_encrypt
      else at_login context
    else context

-- `binary_data: Some(1)`
abbrev pub is_binary : Option Extension → Bool
is_binary none = false
is_binary (some ext) = is_one ext.binary_data
  where
    is_one : Option ℕ → Bool
    is_one none = false
    is_one (some x) = x == 1

abbrev pub encrypted_len : Option Extension → Option ℕ
encrypted_len none = none
encrypted_len (some ext) = if is_binary (some ext) then ext.encrypt_len else none

-- The slice `0..encrypted_len` panics beyond the end.
abbrev pub of_binary :
    Bytes → EncryptionProtocol → Option ℕ → Bytes → Bytes → IResult (Option BcPayloads)
of_binary buf (full_aes key) (some len) processed payload_buf =
    if leb len (length processed) then done (buf, some (binary (take len processed))) else panic
of_binary buf _ _ processed payload_buf = done (buf, some (binary payload_buf))

abbrev pub of_xml : Bytes → Option BcXml → IResult (Option BcPayloads)
of_xml buf none = error
of_xml buf (some xml) = done (buf, some (bc_xml xml))

abbrev pub of_ext : Bytes → Option Extension → IResult (Option Extension)
of_ext buf none = error
of_ext buf (some parsed) = done (buf, some parsed)

module _ (deps : BcDeps) (n : Nom) where
  open n use {le_u8, le_u16, le_u32, take, verify, map_res, cond, consumed}

  unfoldable pub bc_header : Bytes → IResult BcHeader
  bc_header buf = do
    (buf, magic) ← verify ℕ le_u32 is_magic buf
    (buf, msg_id) ← le_u32 buf
    (buf, body_len) ← le_u32 buf
    (buf, channel_id) ← le_u8 buf
    (buf, stream_type) ← le_u8 buf
    (buf, msg_num) ← le_u16 buf
    (buf, response_code) ← le_u16 buf
    (buf, class) ← le_u16 buf
    (buf, payload_offset) ← cond ℕ (has_payload_offset class) le_u32 buf
    done (
      buf,
      record {
        body_len = body_len;
        msg_id = msg_id;
        channel_id = channel_id;
        stream_type = stream_type;
        msg_num = msg_num;
        response_code = response_code;
        class = class;
        payload_offset = payload_offset;
      },
    )

  unfoldable pub hex32 : Bytes → IResult Bytes
  hex32 buf = map_res Bytes Bytes (take 32) from_utf8 buf

  unfoldable pub bc_legacy_login_msg : Bytes → IResult LegacyMsg
  bc_legacy_login_msg buf = do
    (buf, username) ← hex32 buf
    (buf, password) ← hex32 buf
    done (buf, login_msg username password)

  -- The extension, of its bytes.
  unfoldable pub parse_ext : BcContext → BcHeader → Bytes → Bytes → IResult (Option Extension)
  parse_ext context header ext_buf buf =
      if ltb 0 (ext_len header.payload_offset)
      then of_ext buf (
          deps.ext_try_parse
            (decrypt deps.cfb context.encryption_protocol header.channel_id ext_buf))
      else done (buf, none)

  -- The payload, of its bytes.
  unfoldable pub parse_payload :
      BcContext → BcHeader → ℕ → Option Extension → Bytes → Bytes → IResult (Option BcPayloads)
  parse_payload context header payload_len extension payload_buf buf =
      let protocol = payload_protocol header context.encryption_protocol in
      let processed = decrypt deps.cfb protocol header.channel_id payload_buf in
      if ltb 0 payload_len
      then if contains context.in_bin_mode header.msg_num || is_binary extension
        then of_binary buf context.encryption_protocol (encrypted_len extension) processed
            payload_buf
        else of_xml buf (deps.xml_try_parse processed)
      else done (buf, none)

  -- `header.body_len - ext_len` is of 32 bits, and wraps.
  unfoldable pub bc_modern_msg : BcContext → BcHeader → Bytes → IResult ModernMsg
  bc_modern_msg context header buf = do
    (buf, ext_buf) ← take (ext_len header.payload_offset) buf
    let payload_len = (header.body_len + 4294967296 - ext_len header.payload_offset) % 4294967296
    (buf, payload_buf) ← take payload_len buf
    (buf, extension) ← parse_ext context header ext_buf buf
    (buf, payload) ← parse_payload context header payload_len extension payload_buf buf
    done (buf, record { extension = extension; payload = payload })

  unfoldable pub bc_body : BcContext → BcHeader → Bytes → IResult BcBody
  bc_body context header buf =
      if is_modern header
      then (bc_modern_msg context header buf >>= λ p. done (p.0, modern_msg p.1))
      else if header.msg_id == msg_id_login
      then (bc_legacy_login_msg buf >>= λ p. done (p.0, legacy_msg p.1))
      else done (buf, legacy_msg unknown_msg)

  unfoldable pub bc_msg : BcContext → Bytes → IResult Bc
  bc_msg context buf = do
    (buf, header) ← bc_header buf
    (buf, body) ← bc_body context header buf
    done (buf, record { meta = to_meta header; body = body })

  -- `deserialize(context, buf)`: the message, and what `buf.advance(amount)` leaves in the buffer.
  unfoldable pub deserialize : BcContext → Bytes → IResult Bc
  deserialize context buf = do
    (rest, parsed) ← consumed Bc (bc_msg context) buf
    let amount = length parsed.0
    done (drop amount buf, parsed.1)
