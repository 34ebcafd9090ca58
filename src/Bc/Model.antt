-- ===== src/Bc/Model.antt =====
-- crates/core/src/bc/model.rs: messages, their headers, and the context in which they are read.
use neolink.Base.{
  ℕ, List, [], ◌∷◌, Bool, true, false, ◌||◌, not, Option, none, some, ◌==◌, if◌then◌else◌,
}
use neolink.Base.Words.{Bytes}
use neolink.Bc.Credentials.{Credentials}
use neolink.Bc.Crypto.{EncryptionProtocol, unencrypted}
use neolink.Bc.Xml.{BcXml, BcPayloads, bc_xml}
use neolink.Bc.Xml.Login.{Extension}

abbrev pub magic_header : ℕ
magic_header = 0x0abc_def0

abbrev pub magic_header_rev : ℕ
magic_header_rev = 0x0fed_cba0

abbrev pub msg_id_login : ℕ
msg_id_login = 1

pub record ModernMsg : Type 0 where
  pub extension : Option Extension
  pub payload : Option BcPayloads

pub data LegacyMsg : Type 0 where
  login_msg : Bytes → Bytes → LegacyMsg
  login_upgrade : LegacyMsg
  unknown_msg : LegacyMsg

pub data BcBody : Type 0 where
  legacy_msg : LegacyMsg → BcBody
  modern_msg : ModernMsg → BcBody

pub record BcHeader : Type 0 where
  pub body_len : ℕ
  pub msg_id : ℕ
  pub channel_id : ℕ
  pub stream_type : ℕ
  pub msg_num : ℕ
  pub response_code : ℕ
  pub class : ℕ
  pub payload_offset : Option ℕ

pub record BcMeta : Type 0 where
  pub msg_id : ℕ
  pub channel_id : ℕ
  pub stream_type : ℕ
  pub response_code : ℕ
  pub msg_num : ℕ
  pub class : ℕ

pub record Bc : Type 0 where
  pub meta : BcMeta
  pub body : BcBody

-- The set of message numbers in binary mode, without repetition.
pub record BcContext : Type 0 where
  pub credentials : Credentials
  pub in_bin_mode : List ℕ
  pub encryption_protocol : EncryptionProtocol
  pub debug : Bool

-- `Bc::new` and the constructors of messages with some of the parts.
unfoldable pub new_message : BcMeta → Option Extension → Option BcPayloads → Bc
new_message meta extension payload = record {
  meta = meta;
  body = modern_msg (record { extension = extension; payload = payload });
}

unfoldable pub new_from_xml : BcMeta → BcXml → Bc
new_from_xml meta xml = new_message meta none (some (bc_xml xml))

unfoldable pub new_from_ext : BcMeta → Extension → Bc
new_from_ext meta ext = new_message meta (some ext) none

unfoldable pub new_from_meta : BcMeta → Bc
new_from_meta meta = new_message meta none none

unfoldable pub new_from_ext_xml : BcMeta → Extension → BcXml → Bc
new_from_ext_xml meta ext xml = new_message meta (some ext) (some (bc_xml xml))

unfoldable pub new_context : Credentials → BcContext
new_context credentials = record {
  credentials = credentials;
  in_bin_mode = [];
  encryption_protocol = unencrypted;
  debug = false;
}

unfoldable pub set_encrypted : BcContext → EncryptionProtocol → BcContext
set_encrypted context protocol = record context { encryption_protocol = protocol }

abbrev pub contains : List ℕ → ℕ → Bool
contains [] x = false
contains (y ∷ ys) x = y == x || contains ys x

abbrev pub remove : List ℕ → ℕ → List ℕ
remove [] x = []
remove (y ∷ ys) x = if y == x then remove ys x else y ∷ remove ys x

unfoldable pub binary_on : BcContext → ℕ → BcContext
binary_on context msg_id = record context {
  in_bin_mode =
      if contains context.in_bin_mode msg_id
      then context.in_bin_mode
      else msg_id ∷ context.in_bin_mode;
}

unfoldable pub binary_off : BcContext → ℕ → BcContext
binary_off context msg_id = record context { in_bin_mode = remove context.in_bin_mode msg_id }

unfoldable pub debug_on : BcContext → BcContext
debug_on context = record context { debug = true }

unfoldable pub is_modern : BcHeader → Bool
is_modern header = not (header.class == 0x6514)

unfoldable pub to_meta : BcHeader → BcMeta
to_meta header = record {
  msg_id = header.msg_id;
  channel_id = header.channel_id;
  stream_type = header.stream_type;
  response_code = header.response_code;
  msg_num = header.msg_num;
  class = header.class;
}

unfoldable pub from_meta : BcMeta → ℕ → Option ℕ → BcHeader
from_meta meta body_len payload_offset = record {
  body_len = body_len;
  msg_id = meta.msg_id;
  channel_id = meta.channel_id;
  stream_type = meta.stream_type;
  msg_num = meta.msg_num;
  response_code = meta.response_code;
  class = meta.class;
  payload_offset = payload_offset;
}

unfoldable pub has_payload_offset : ℕ → Bool
has_payload_offset class = class == 0x6414 || class == 0x0000
