-- ===== src/Bc/Examples.antt =====
-- The messages and their encryption at concrete values.
use neolink.Base.{
  Option, get_elem?, ◌≡◌, refl, arith, some, none, replicate, ◌++◌, [], ◌∷◌, length, map,
  length-map, zip_cycle, bit_xor,
}
use neolink.Base.Bits.{bit_xor_cancel}
use neolink.Base.Words.{Bytes, le_bytes}
use neolink.Wire.{nom, cookie}
use neolink.Bc.Credentials.{Credentials, make_aeskey}
use neolink.Bc.Crypto.{
  EncryptionProtocol, AesCfb, bc_encrypt, aes, encrypt, decrypt, xor_key, mask, get_elem?-encrypt,
}
use neolink.Bc.Deps.{BcDeps}
use neolink.Bc.Model.{
  BcMeta, ModernMsg, new_message, set_encrypted, new_context, from_meta, binary_on,
  has_payload_offset,
}
use neolink.Bc.Ser.{
  serialize_modern, written, bc_header, ext_buf, payload_buf, bc_ext, bc_payload, offset_of,
}
use neolink.Bc.Codex.{BcCodex, new, encode, decode, message, no_message, send_protocol}
use neolink.Bc.Session.{sent, codex_decode-encode, codex_decode-part}
use neolink.Bc.Login.{AsksFor, FitsReply, reply_bytes, replied, decode-FitsReply}
use neolink.Bc.Underflow.{decode_underflow}
use neolink.Bc.Xml.{BcXml, bc_xml, binary, default_xml}
use neolink.Bc.Xml.Login.{Extension}

-- A stand-in for AES: each byte against the length of the key.
abbrev toy : Bytes → Bytes → Bytes → Bytes
toy key iv b = map (λ x. bit_xor x (length key)) b

toy_twice : (key iv b : Bytes) → toy key iv (toy key iv b) ≡ b
toy_twice key iv [] = refl
toy_twice key iv (x ∷ b) = rw (bit_xor_cancel x (length key), toy_twice key iv b) refl

abbrev toy_cfb : AesCfb
toy_cfb = record {
  encrypt_cfb = toy;
  decrypt_cfb = toy;
  decrypt-encrypt_cfb = toy_twice;
  encrypt-decrypt_cfb = toy_twice;
  length-encrypt_cfb = λ key iv b. length-map (λ x. bit_xor x (length key)) b;
}

-- At offset 7 the key starts from its last byte, and the offset itself is applied.
from_the_last : encrypt toy_cfb bc_encrypt 7 (0 ∷ 0 ∷ []) ≡ 0xf8 ∷ 0x18 ∷ []
unfolding encrypt decrypt xor_key mask zip_cycle
from_the_last = refl

get_elem?-encrypt_example :
    (get_elem? (encrypt toy_cfb bc_encrypt 7 (60 ∷ 63 ∷ [])) 1 ≡ some 0x27)
    × (decrypt toy_cfb bc_encrypt 7 (encrypt toy_cfb bc_encrypt 7 (60 ∷ 63 ∷ [])) ≡ 60 ∷ 63 ∷ [])
get_elem?-encrypt_example = get_elem?-encrypt toy_cfb 7 1 (60 ∷ 63 ∷ [])

-- Every text is read as a reply to the login, with an empty nonce.
abbrev reply_xml : BcXml
reply_xml = record default_xml {
  encryption = some (record { version = []; type = []; nonce = 9 ∷ [] });
}

abbrev binary_ext : Extension
binary_ext = record {
  version = [];
  binary_data = some 1;
  user_name = none;
  token = none;
  channel_id = none;
  rf_id = none;
  check_pos = none;
  check_value = none;
  encrypt_len = none;
}

abbrev bc_deps : BcDeps
bc_deps = record {
  cfb = toy_cfb;
  md5 = record { compute = λ b. replicate 16 0xab; length-compute = λ b. refl };
  ext_serialize = λ e. 60 ∷ [];
  ext_try_parse = λ b. some binary_ext;
  xml_serialize = λ x. 60 ∷ 63 ∷ [];
  xml_try_parse = λ b. some reply_xml;
  ext_serialize-some = λ e. omega arith;
  xml_serialize-some = λ x. omega arith;
}

abbrev admin : Credentials
admin = record { username = 97 ∷ []; password = some (49 ∷ []) }

aes_key :
    make_aeskey bc_deps.md5 admin (9 ∷ [])
    ≡ 65 ∷ 66 ∷ 65 ∷ 66 ∷ 65 ∷ 66 ∷ 65 ∷ 66 ∷ 65 ∷ 66 ∷ 65 ∷ 66 ∷ 65 ∷ 66 ∷ 65 ∷ 66 ∷ []
unfolding make_aeskey
aes_key = refl

abbrev a_meta : BcMeta
a_meta = record {
  msg_id = 3;
  channel_id = 0;
  stream_type = 0;
  response_code = 200;
  msg_num = 7;
  class = 0x6414;
}

abbrev video : ModernMsg
video = record { extension = some binary_ext; payload = some (binary (5 ∷ 6 ∷ [])) }

abbrev a_codex : BcCodex
a_codex = record { context = set_encrypted (new_context admin) (aes (1 ∷ [])) }

-- 24 bytes of header, one of the extension and two of the payload.
video_bytes : length (sent bc_deps cookie a_codex.context a_meta video) ≡ 27
unfolding serialize_modern bc_header ext_buf payload_buf bc_ext bc_payload offset_of from_meta
    send_protocol has_payload_offset cookie set_encrypted new_context encrypt le_bytes
video_bytes = refl

codex_decode-encode_example :
    (encode bc_deps cookie a_codex (new_message a_meta video.extension video.payload) (8 ∷ [])
      ≡ written (8 ∷ sent bc_deps cookie a_codex.context a_meta video))
    × (decode bc_deps nom a_codex (sent bc_deps cookie a_codex.context a_meta video ++ (1 ∷ [])) ≡ (
      message (new_message a_meta video.extension video.payload),
      record { context = binary_on a_codex.context 7 },
      1 ∷ [],
    ))
unfolding new_context set_encrypted has_payload_offset ext_buf payload_buf bc_ext bc_payload cookie
    send_protocol encrypt serialize_modern
codex_decode-encode_example =
    codex_decode-encode bc_deps nom cookie a_codex a_meta video (8 ∷ []) (1 ∷ []) (
      (omega arith, omega arith, omega arith, omega arith, omega arith, omega arith),
      refl,
      (refl, refl, refl),
      (refl, refl, omega arith),
      omega arith,
    )

-- The reply asks for AES.
abbrev reply_meta : BcMeta
reply_meta = record {
  msg_id = 1;
  channel_id = 0;
  stream_type = 0;
  response_code = 0xdd02;
  msg_num = 1;
  class = 0x6614;
}

a_reply-FitsReply :
    FitsReply bc_deps
      (new_context admin)
      reply_meta
      reply_xml
      2
      (record { version = []; type = []; nonce = 9 ∷ [] })
unfolding new_context
a_reply-FitsReply = record {
  meta = (omega arith, omega arith, omega arith, omega arith, omega arith, omega arith);
  login = refl;
  code = refl;
  one_byte = omega arith;
  not_legacy = refl;
  not_binary = refl;
  has_nonce = refl;
  text = refl;
  size = omega arith;
}

decode-FitsReply_example :
    (o : Option EncryptionProtocol) × (AsksFor bc_deps admin.password (9 ∷ []) 2 o
      × (decode bc_deps nom
            (new admin)
            (reply_bytes bc_deps cookie reply_meta reply_xml 2 ++ (7 ∷ []))
          ≡ replied
              (new admin)
              (7 ∷ [])
              (new_message reply_meta none (some (bc_xml reply_xml)))
              2
              o))
unfolding new new_context
decode-FitsReply_example =
    decode-FitsReply bc_deps nom cookie (new admin) reply_meta reply_xml 2
      (record { version = []; type = []; nonce = 9 ∷ [] }) (7 ∷ []) a_reply-FitsReply

decode_underflow_example :
    decode bc_deps nom a_codex (bc_header bc_deps cookie (from_meta a_meta 3 (some 4)) ++ (60 ∷ []))
    ≡ (no_message, a_codex, bc_header bc_deps cookie (from_meta a_meta 3 (some 4)) ++ (60 ∷ []))
unfolding has_payload_offset
decode_underflow_example =
    decode_underflow bc_deps nom cookie a_codex a_meta 3 4 (60 ∷ [])
      (omega arith, omega arith, omega arith, omega arith, omega arith, omega arith) refl refl
      (omega arith) (omega arith) (omega arith)

codex_decode-part_example :
    decode bc_deps nom a_codex (240 ∷ 222 ∷ 188 ∷ []) ≡ (no_message, a_codex, 240 ∷ 222 ∷ 188 ∷ [])
unfolding new_context set_encrypted has_payload_offset ext_buf payload_buf bc_ext bc_payload cookie
    send_protocol encrypt serialize_modern bc_header from_meta offset_of le_bytes
codex_decode-part_example =
    codex_decode-part bc_deps nom cookie a_codex a_meta video (240 ∷ 222 ∷ 188 ∷ []) _ _
      (
        (omega arith, omega arith, omega arith, omega arith, omega arith, omega arith),
        refl,
        (refl, refl, refl),
        (refl, refl, omega arith),
        omega arith,
      )
      refl
