-- ===== src/Bc/Login.antt =====
-- The login: which encryption the codec takes up from the reply of the camera.
use neolink.Base.{
  ℕ, ◌+◌, ◌/◌, ◌%◌, ◌≡◌, ◌≢◌, ◌≤◌, ◌<◌, refl, arith, zero, suc, [], ◌∷◌, ◌++◌, length, take, false,
  true, Option, none, some, ◌==◌, if◌then◌else◌, inr, append-nil, lt→ltb, drop-append_length,
}
use neolink.Base.Words.{Bytes, IsU32, u32}
use neolink.Wire.{Nom, Cookie, done}
use neolink.Wire.Reads.{Reads, bind-Reads, map-Reads, same_bytes, consumed-Reads}
use neolink.Bc.Credentials.{Credentials, Md5, make_aeskey, upper_hex, unwrap_or_default}
use neolink.Bc.Crypto.{
  EncryptionProtocol, unencrypted, bc_encrypt, aes, full_aes, encrypt, message_decrypt-encrypt,
}
use neolink.Bc.Deps.{BcDeps}
use neolink.Bc.Model.{
  Bc, BcMeta, BcContext, new_message, from_meta, to_meta, contains, is_modern, set_encrypted,
}
use neolink.Bc.Header.{FitsMeta, header-Reads}
use neolink.Bc.Ser.{serialize_modern, ext_buf, payload_buf, bc_payload, offset_of}
use neolink.Bc.De.{deserialize, bc_msg, parse_payload, payload_protocol}
use neolink.Bc.Codex.{
  BcCodex, decode, message, unknown_encryption, negotiate, login_nonce, protocol_of, Decoded, agree,
  accept,
}
use neolink.Bc.Parts.{parse_ext-none, modern_msg-Reads, ext_len-offset_of}
use neolink.Bc.RoundTrip.{modern_body-Reads, offset_of-FitsOffset}
use neolink.Bc.Xml.{BcXml, BcPayloads, bc_xml}
use neolink.Bc.Xml.Login.{Encryption}

twice : ℕ → ℕ
twice zero = zero
twice (suc k) = suc (suc (twice k))

take-upper_hex :
    (k : ℕ) (digest back : Bytes)
    → k ≤ length digest
    → take (twice k) (upper_hex digest ++ back) ≡ upper_hex (take k digest)
unfolding twice
take-upper_hex zero digest back h = refl
take-upper_hex (suc k) [] back h = let clash : ⊥ = omega (arith, h) in elim clash [ ]
take-upper_hex (suc k) (b ∷ digest) back h = rw (take-upper_hex k digest back (omega (arith, h)))

-- The key of the two AES modes: the first eight bytes of the digest of the nonce, a dash and the
-- password, as sixteen digits.
abbrev pub key_of : Md5 → Bytes → Option Bytes → Bytes
key_of md5 nonce password =
    upper_hex (take 8 (md5.compute (nonce ++ (b'-' ∷ unwrap_or_default password))))

make_aeskey-key_of :
    (md5 : Md5) (credentials : Credentials) (nonce : Bytes)
    → make_aeskey md5 credentials nonce ≡ key_of md5 nonce credentials.password
unfolding make_aeskey twice
make_aeskey-key_of md5 credentials nonce =
    let text = nonce ++ (b'-' ∷ unwrap_or_default credentials.password) in
    take-upper_hex 8 (md5.compute text) (0 ∷ []) (omega (arith, md5.length-compute text))

-- The encryption that a reply asks for by its byte, if there is one.
pub data AsksFor (deps : BcDeps) (password : Option Bytes) (nonce : Bytes) (byte : ℕ)
    (o : Option EncryptionProtocol) : Type 0 where
  for_none : byte ≡ 0 → o ≡ some unencrypted → AsksFor deps password nonce byte o
  for_bc_encrypt : byte ≡ 1 → o ≡ some bc_encrypt → AsksFor deps password nonce byte o
  for_aes :
      byte ≡ 2
      → o ≡ some (aes (key_of deps.md5 nonce password))
      → AsksFor deps password nonce byte o
  for_full_aes :
      byte ≡ 18
      → o ≡ some (full_aes (key_of deps.md5 nonce password))
      → AsksFor deps password nonce byte o
  for_unknown :
      byte ≢ 0 → byte ≢ 1 → byte ≢ 2 → byte ≢ 18 → o ≡ none → AsksFor deps password nonce byte o

protocol_of-AsksFor :
    (deps : BcDeps) (credentials : Credentials) (nonce : Bytes) (byte : ℕ)
    → AsksFor deps credentials.password nonce byte (protocol_of deps credentials nonce byte)
unfolding protocol_of
protocol_of-AsksFor deps credentials nonce byte = ground (
  arith,
  make_aeskey-key_of deps.md5 credentials nonce,
  for_none,
  for_bc_encrypt,
  for_aes,
  for_full_aes,
  for_unknown,
)

-- The mode of the text of a reply: none where the reply asks for none, and BCEncrypt otherwise.
abbrev pub reply_mode : ℕ → EncryptionProtocol
reply_mode byte = if byte == 0 then unencrypted else bc_encrypt

-- The bytes of a reply to the login.
abbrev pub reply_bytes : BcDeps → Cookie → BcMeta → BcXml → ℕ → Bytes
reply_bytes deps c m x byte =
    serialize_modern deps c m (record { extension = none; payload = some (bc_xml x) })
      (reply_mode byte)

-- A reply to the login that fits the format, whose code carries a byte and whose text a nonce.
pub record FitsReply (deps : BcDeps) (context : BcContext) (m : BcMeta) (x : BcXml) (byte : ℕ)
    (e : Encryption) : Type 0 where
  pub meta : FitsMeta m
  pub login : m.msg_id ≡ 1
  pub code : m.response_code ≡ 0xdd00 + byte
  pub one_byte : byte < 256
  pub not_legacy : (m.class == 0x6514) ≡ false
  pub not_binary : contains context.in_bin_mode m.msg_num ≡ false
  pub has_nonce : x.encryption ≡ some e
  pub text : deps.xml_try_parse (deps.xml_serialize x) ≡ some x
  pub size : IsU32 (length (deps.xml_serialize x))

module _ (deps : BcDeps) (n : Nom) (c : Cookie) (context : BcContext) (m : BcMeta) (x : BcXml)
    (byte : ℕ) (e : Encryption) (fits : FitsReply deps context m x byte e) where
  open fits use {meta, login, code, one_byte, not_legacy, not_binary, has_nonce, text, size}

  text_bytes : Bytes
  text_bytes = encrypt deps.cfb (reply_mode byte) m.channel_id (deps.xml_serialize x)

  length-text_bytes : length text_bytes ≡ length (deps.xml_serialize x)
  unfolding text_bytes
  length-text_bytes =
      (message_decrypt-encrypt deps.cfb (reply_mode byte) m.channel_id (deps.xml_serialize x)).1.1

  payload_protocol-reply_mode :
      (len : ℕ) (o : Option ℕ)
      → payload_protocol (from_meta m len o) context.encryption_protocol ≡ reply_mode byte
  unfolding payload_protocol from_meta
  payload_protocol-reply_mode len o =
      let one : (m.msg_id == 1) ≡ true = ground (arith, login) in
      let asks : (m.response_code / 256 % 256 == 0xdd) ≡ true = ground (arith, code, one_byte) in
      let asked : m.response_code % 256 ≡ byte = omega (arith, code, one_byte) in
      rw (one, asks, asked)

  parse_payload-text :
      (len : ℕ) (o : Option ℕ) (buf : Bytes)
      → parse_payload deps n context (from_meta m len o) (length text_bytes) none text_bytes buf
        ≡ done (buf, some (bc_xml x))
  unfolding parse_payload from_meta text_bytes
  parse_payload-text len o buf =
      let some_text : 0 < length text_bytes =
        omega (arith, length-text_bytes, deps.xml_serialize-some x) in
      rw (
        lt→ltb 0 (length text_bytes) some_text,
        not_binary,
        payload_protocol-reply_mode len o,
        (message_decrypt-encrypt deps.cfb (reply_mode byte) m.channel_id (deps.xml_serialize x)).0,
        text,
      )

  reply-Reads :
      Reads
        (bc_msg deps n context)
        (reply_bytes deps c m x byte)
        (new_message m none (some (bc_xml x)))
  unfolding bc_msg new_message serialize_modern to_meta from_meta ext_buf payload_buf bc_payload
      is_modern text_bytes
  reply-Reads =
      let o = offset_of deps c m [] in
      let none_there = ext_len-offset_of deps c m [] (omega arith) (inr refl) in
      same_bytes (simp (c.slice_lem, c.tuple_cons, c.tuple_nil, append-nil)) (
        bind-Reads _
          (header-Reads deps n c m (u32 (length text_bytes)) o meta (omega arith)
            (offset_of-FitsOffset deps n c context m []))
          (map-Reads (λ b. record { meta = m; body = b })
            (modern_body-Reads deps n c context m _ (rw not_legacy refl) (
              modern_msg-Reads deps n context _ [] text_bytes none (some (bc_xml x))
                (omega (arith, length-text_bytes, size)) none_there
                (omega (arith, length-text_bytes, size))
                (λ buf. parse_ext-none deps n context m _ o [] buf none_there)
                (λ buf. parse_payload-text _ o buf)))))

  deserialize_reply :
      (rest : Bytes)
      → deserialize deps n context (reply_bytes deps c m x byte ++ rest)
        ≡ done (rest, new_message m none (some (bc_xml x)))
  unfolding deserialize
  deserialize_reply rest =
      let r = consumed-Reads n reply-Reads in
      rw (r.whole rest, drop-append_length (reply_bytes deps c m x byte) rest)

  negotiate_reply :
      negotiate deps context (new_message m none (some (bc_xml x)))
      ≡ agree context (protocol_of deps context.credentials e.nonce byte)
  unfolding negotiate login_nonce new_message
  negotiate_reply =
      let one : (m.msg_id == 1) ≡ true = ground (arith, login) in
      let asks : (m.response_code / 256 == 0xdd) ≡ true = ground (arith, code, one_byte) in
      let asked : m.response_code % 256 ≡ byte = omega (arith, code, one_byte) in
      rw (one, has_nonce, asks, asked)

-- What becomes of the reply, by the encryption that it asks for.
abbrev pub replied :
    BcCodex → Bytes → Bc → ℕ → Option EncryptionProtocol → Decoded × BcCodex × Bytes
replied codex rest bc byte none = (unknown_encryption byte, codex, rest)
replied codex rest bc byte (some protocol) =
    (message bc, record { context = record codex.context { encryption_protocol = protocol } }, rest)

accept-agree :
    (codex : BcCodex) (rest : Bytes) (m : BcMeta) (p : Option BcPayloads) (byte : ℕ)
    (o : Option EncryptionProtocol)
    → m.response_code % 256 ≡ byte
    → accept codex rest (new_message m none p) (agree codex.context o)
      ≡ replied codex rest (new_message m none p) byte o
unfolding new_message set_encrypted
accept-agree codex rest m p byte none h = rw h
accept-agree codex rest m p byte (some protocol) h = refl

-- From the bytes of a reply to the login with a nonce, in BCEncrypt or in the clear as its byte
-- says, the codec gives the message and sets the encryption that the byte asks for: 0x00 none,
-- 0x01 BCEncrypt, 0x02 AES and 0x12 full AES, whose key is the first sixteen digits of the MD5 of
-- the nonce, a dash and the password. Any other byte is an error, and the context stays as it was;
-- what follows the reply is left in the buffer either way.
pub decode-FitsReply :
    (deps : BcDeps) (n : Nom) (c : Cookie) (codex : BcCodex) (m : BcMeta) (x : BcXml) (byte : ℕ)
    (e : Encryption) (rest : Bytes)
    → FitsReply deps codex.context m x byte e
    → (o : Option EncryptionProtocol) × (AsksFor deps codex.context.credentials.password e.nonce
          byte o
        × (decode deps n codex (reply_bytes deps c m x byte ++ rest)
            ≡ replied codex rest (new_message m none (some (bc_xml x))) byte o))
unfolding decode
decode-FitsReply deps n c codex m x byte e rest fits =
    let credentials = codex.context.credentials in
    let o = protocol_of deps credentials e.nonce byte in
    let asked : m.response_code % 256 ≡ byte = omega (arith, fits.code, fits.one_byte) in
    (
      o,
      (
        protocol_of-AsksFor deps credentials e.nonce byte,
        rw
            (
              deserialize_reply deps n c codex.context m x byte e fits rest,
              negotiate_reply deps n c codex.context m x byte e fits,
            )
            (accept-agree codex rest m (some (bc_xml x)) byte o asked),
      ),
    )
