-- ===== src/Bc/Parts.antt =====
-- The two parts of the body of a message, each read back from its bytes.
use neolink.Base.{
  ℕ, ◌+◌, ◌-◌, ◌%◌, ◌≡◌, ◌≤◌, ◌<◌, refl, ◌⊎◌, inl, inr, Bool-cases, sym, arith, [], ◌++◌, length,
  Bool, true, false, ◌||◌, ◌&&◌, Option, none, some, ◌==◌, append-nil, lt→ltb,
}
use neolink.Base.Words.{Bytes, IsU32}
use neolink.Wire.{Nom, Cookie, done}
use neolink.Wire.Reads.{Reads, bind-Reads, nothing-Reads, same_bytes, take-Reads}
use neolink.Bc.Crypto.{
  EncryptionProtocol, unencrypted, bc_encrypt, aes, full_aes, encrypt, message_decrypt-encrypt,
}
use neolink.Bc.Deps.{BcDeps}
use neolink.Bc.Model.{BcMeta, BcHeader, BcContext, contains, from_meta, has_payload_offset}
use neolink.Bc.Ser.{payload_buf, offset_of}
use neolink.Bc.De.{
  bc_modern_msg, parse_ext, parse_payload, payload_protocol, sets_encryption, is_binary,
  encrypted_len, of_binary, ext_len,
}
use neolink.Bc.Codex.{send_protocol}
use neolink.Bc.Xml.{BcXml, BcPayloads, bc_xml, binary}
use neolink.Bc.Xml.Login.{Extension}

-- An extension stands in a class with an offset, in no login, and its text is read back.
abbrev pub FitsExt : BcDeps → BcMeta → Option Extension → Type 0
FitsExt deps m none = Unit {0}
FitsExt deps m (some e) =
    (has_payload_offset m.class ≡ true)
    × ((m.msg_id == 1) ≡ false)
    × (deps.ext_try_parse (deps.ext_serialize e) ≡ some e)

abbrev pub in_binary : BcContext → BcMeta → Option Extension → Bool
in_binary context m e = contains context.in_bin_mode m.msg_num || is_binary e

-- A text stands where none but text is read, in no reply that sets the encryption, and is read
-- back; bytes stand in binary mode, are some, and none of them is said to be encrypted.
abbrev pub FitsPayload : BcDeps → BcContext → BcMeta → Option Extension → Option BcPayloads → Type 0
FitsPayload deps context m e none = Unit {0}
FitsPayload deps context m e (some (bc_xml x)) =
    (in_binary context m e ≡ false)
    × ((m.msg_id == 1 && sets_encryption m.response_code) ≡ false)
    × (deps.xml_try_parse (deps.xml_serialize x) ≡ some x)
FitsPayload deps context m e (some (binary b)) =
    (in_binary context m e ≡ true) × (encrypted_len e ≡ none) × (1 ≤ length b)

of_binary-none :
    (encryption_protocol : EncryptionProtocol) (buf processed payload_buf : Bytes)
    → of_binary buf encryption_protocol none processed payload_buf
      ≡ done (buf, some (binary payload_buf))
of_binary-none unencrypted buf processed payload_buf = refl
of_binary-none bc_encrypt buf processed payload_buf = refl
of_binary-none (aes key) buf processed payload_buf = refl
of_binary-none (full_aes key) buf processed payload_buf = refl

module _ (deps : BcDeps) (n : Nom) (context : BcContext) (m : BcMeta) (len : ℕ) (o : Option ℕ) where
  pub parse_ext-none :
      (bytes buf : Bytes)
      → ext_len o ≡ 0
      → parse_ext deps n context (from_meta m len o) bytes buf ≡ done (buf, none)
  unfolding parse_ext from_meta
  parse_ext-none bytes buf h = rw h

  pub parse_ext-some :
      (e : Extension) (bytes buf : Bytes)
      → 0 < ext_len o
      → bytes ≡ encrypt deps.cfb context.encryption_protocol m.channel_id (deps.ext_serialize e)
      → deps.ext_try_parse (deps.ext_serialize e) ≡ some e
      → parse_ext deps n context (from_meta m len o) bytes buf ≡ done (buf, some e)
  unfolding parse_ext from_meta
  parse_ext-some e bytes buf h b r = rw (
    lt→ltb 0 (ext_len o) h,
    b,
    (message_decrypt-encrypt deps.cfb context.encryption_protocol m.channel_id
        (deps.ext_serialize e)).0,
    r,
  )

  payload_protocol-send_protocol :
      (m.msg_id == 1 && sets_encryption m.response_code) ≡ false
      → payload_protocol (from_meta m len o) context.encryption_protocol ≡ send_protocol context m
  unfolding payload_protocol from_meta send_protocol
  payload_protocol-send_protocol h = ground arith

  pub parse_payload-none :
      (e : Option Extension) (bytes buf : Bytes)
      → parse_payload deps n context (from_meta m len o) 0 e bytes buf ≡ done (buf, none)
  unfolding parse_payload from_meta
  parse_payload-none e bytes buf = refl

  pub parse_payload-xml :
      (e : Option Extension) (x : BcXml) (payload_len : ℕ) (bytes buf : Bytes)
      → 0 < payload_len
      → bytes ≡ encrypt deps.cfb (send_protocol context m) m.channel_id (deps.xml_serialize x)
      → FitsPayload deps context m e (some (bc_xml x))
      → parse_payload deps n context (from_meta m len o) payload_len e bytes buf
        ≡ done (buf, some (bc_xml x))
  unfolding parse_payload from_meta
  parse_payload-xml e x k bytes buf h b (i, s, r) = rw (
    lt→ltb 0 k h,
    i,
    payload_protocol-send_protocol s,
    b,
    (message_decrypt-encrypt deps.cfb (send_protocol context m) m.channel_id
        (deps.xml_serialize x)).0,
    r,
  )

  pub parse_payload-binary :
      (e : Option Extension) (b : Bytes) (payload_len : ℕ) (buf : Bytes)
      → 0 < payload_len
      → FitsPayload deps context m e (some (binary b))
      → parse_payload deps n context (from_meta m len o) payload_len e b buf
        ≡ done (buf, some (binary b))
  unfolding parse_payload from_meta
  parse_payload-binary e b k buf h (i, l, ne) =
      rw (lt→ltb 0 k h, i, l, of_binary-none context.encryption_protocol buf _ b)

module _ (deps : BcDeps) (n : Nom) (context : BcContext) (h : BcHeader) where
  -- The two parts of a body, of which each is read.
  pub modern_msg-Reads :
      (ext payload : Bytes) (e : Option Extension) (p : Option BcPayloads)
      → IsU32 (length ext + length payload)
      → ext_len h.payload_offset ≡ length ext
      → h.body_len ≡ length ext + length payload
      → ((buf : Bytes) → parse_ext deps n context h ext buf ≡ done (buf, e))
      → ((buf : Bytes)
          → parse_payload deps n context h (length payload) e payload buf ≡ done (buf, p))
      → Reads
          (bc_modern_msg deps n context h)
          (ext ++ payload)
          (record { extension = e; payload = p })
  unfolding bc_modern_msg
  modern_msg-Reads ext payload e p l k b re rp =
      let size : (h.body_len + 4294967296 - ext_len h.payload_offset) % 4294967296
          ≡ length payload =
        omega arith in
      same_bytes {e = ext ++ (payload ++ [])} (rw append-nil) (
        bind-Reads _ (take-Reads n (ext_len h.payload_offset) ext (sym k)) (
          bind-Reads _ (take-Reads n _ payload (omega arith))
            (nothing-Reads (λ buf. rw (re buf, size, rp buf)))))

pub ext_len-offset_of :
    (deps : BcDeps) (c : Cookie) (m : BcMeta) (ext : Bytes)
    → IsU32 (length ext)
    → (has_payload_offset m.class ≡ true) ⊎ (ext ≡ [])
    → ext_len (offset_of deps c m ext) ≡ length ext
unfolding offset_of
ext_len-offset_of deps c m ext h (inl e) = rw e (omega arith)
ext_len-offset_of deps c m ext h (inr e) = elim (Bool-cases (has_payload_offset m.class)) [
  | inl k ↦ rw (k, e) (omega arith)
  | inr k ↦ rw (k, e) refl
]
