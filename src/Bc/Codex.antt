-- ===== src/Bc/Codex.antt =====
-- crates/core/src/bc/codex.rs: the codec of the messages, which follows the encryption that the
-- camera asks for at the login and which messages are binary.
use neolink.Base.{ℕ, ◌/◌, ◌%◌, ◌++◌, Option, none, some, ◌==◌, if◌then◌else◌}
use neolink.Base.Words.{Bytes}
use neolink.Wire.{Nom, Cookie, IResult, done, incomplete, error, panic}
use neolink.Bc.Credentials.{Credentials, make_aeskey}
use neolink.Bc.Crypto.{EncryptionProtocol, unencrypted, bc_encrypt, aes, full_aes}
use neolink.Bc.Deps.{BcDeps}
use neolink.Bc.Model.{
  Bc, BcBody, BcMeta, BcContext, new_context, debug_on, set_encrypted, binary_on, binary_off,
  modern_msg, legacy_msg,
}
use neolink.Bc.Ser.{Serialized, written, gen_error, aborted, serialize}
use neolink.Bc.De.{deserialize, at_login}
use neolink.Bc.Xml.{BcPayloads, bc_xml, binary}
use neolink.Bc.Xml.Login.{Extension, Encryption}

pub record BcCodex : Type 0 where
  pub context : BcContext

unfoldable pub new : Credentials → BcCodex
new credentials = record { context = new_context credentials }

unfoldable pub new_with_debug : Credentials → BcCodex
new_with_debug credentials = record { context = debug_on (new_context credentials) }

-- `Result<Option<Bc>>`, with the error for an encryption that is not known, and a panic.
pub data Decoded : Type 0 where
  message : Bc → Decoded
  no_message : Decoded
  failed : Decoded
  unknown_encryption : ℕ → Decoded
  panicked : Decoded

unfoldable pub send_protocol : BcContext → BcMeta → EncryptionProtocol
send_protocol context meta =
    if meta.msg_id == 1 then at_login context.encryption_protocol else context.encryption_protocol

abbrev pub extend : Bytes → Serialized → Serialized
extend dst (written buf) = written (dst ++ buf)
extend dst gen_error = gen_error
extend dst aborted = aborted

-- The new contents of the buffer.
unfoldable pub encode : BcDeps → Cookie → BcCodex → Bc → Bytes → Serialized
encode deps c codex item dst =
    extend dst (serialize deps c item (send_protocol codex.context item.meta))

-- `Some(Encryption { nonce, .. })` of a payload.
abbrev pub nonce_of : Option BcPayloads → Option Bytes
nonce_of (some (bc_xml xml)) = of_encryption xml.encryption
  where
    of_encryption : Option Encryption → Option Bytes
    of_encryption none = none
    of_encryption (some encryption) = some encryption.nonce
nonce_of (some (binary x)) = none
nonce_of none = none

-- The nonce of a reply to the login.
unfoldable pub login_nonce : Bc → Option Bytes
login_nonce bc = if bc.meta.msg_id == 1 then of_body bc.body else none
  where
    of_body : BcBody → Option Bytes
    of_body (modern_msg modern) = nonce_of modern.payload
    of_body (legacy_msg legacy) = none

-- The encryption of a byte, if it is known.
unfoldable pub protocol_of : BcDeps → Credentials → Bytes → ℕ → Option EncryptionProtocol
protocol_of deps credentials nonce byte =
    if byte == 0x00
    then some unencrypted
    else if byte == 0x01
    then some bc_encrypt
    else if byte == 0x02
    then some (aes (make_aeskey deps.md5 credentials nonce))
    else if byte == 0x12
    then some (full_aes (make_aeskey deps.md5 credentials nonce))
    else none

-- The context after the message, or none for an encryption that is not known.
abbrev pub agree : BcContext → Option EncryptionProtocol → Option BcContext
agree context none = none
agree context (some protocol) = some (set_encrypted context protocol)

abbrev pub negotiate_with : BcDeps → BcContext → ℕ → Option Bytes → Option BcContext
negotiate_with deps context response_code none = some context
negotiate_with deps context response_code (some nonce) =
    if response_code / 256 == 0xdd
    then agree context (protocol_of deps context.credentials nonce (response_code % 256))
    else some context

unfoldable pub negotiate : BcDeps → BcContext → Bc → Option BcContext
negotiate deps context bc = negotiate_with deps context bc.meta.response_code (login_nonce bc)

-- `binary_data` of the extension.
abbrev pub on_off : BcBody → Option ℕ
on_off (modern_msg modern) = of_ext modern.extension
  where
    of_ext : Option Extension → Option ℕ
    of_ext none = none
    of_ext (some ext) = ext.binary_data
on_off (legacy_msg legacy) = none

abbrev pub switch : BcContext → ℕ → Option ℕ → BcContext
switch context msg_num none = context
switch context msg_num (some on) =
    if on == 0 then binary_off context msg_num else binary_on context msg_num

-- What is done with a message, with the rest of the buffer.
abbrev pub accept : BcCodex → Bytes → Bc → Option BcContext → Decoded × BcCodex × Bytes
accept codex rest bc none = (unknown_encryption (bc.meta.response_code % 256), codex, rest)
accept codex rest bc (some context) =
    (message bc, record { context = switch context bc.meta.msg_num (on_off bc.body) }, rest)

abbrev pub of_result : BcDeps → BcCodex → Bytes → IResult Bc → Decoded × BcCodex × Bytes
of_result deps codex src (done (rest, bc)) = accept codex rest bc (negotiate deps codex.context bc)
of_result deps codex src incomplete = (no_message, codex, src)
of_result deps codex src error = (failed, codex, src)
of_result deps codex src panic = (panicked, codex, src)

unfoldable pub decode : BcDeps → Nom → BcCodex → Bytes → Decoded × BcCodex × Bytes
decode deps n codex src = of_result deps codex src (deserialize deps n codex.context src)

-- What is left over at the end of the stream is not an error.
unfoldable pub decode_eof : BcDeps → Nom → BcCodex → Bytes → Decoded × BcCodex × Bytes
decode_eof deps n codex buf = decode deps n codex buf
