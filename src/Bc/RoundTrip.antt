-- ===== src/Bc/RoundTrip.antt =====
-- A message, written by the codec and read back in the same context.
use neolink.Base.{
  if◌then◌else◌, ℕ, ◌+◌, ◌≡◌, ◌≤◌, refl, inl, inr, ap, ◌∙◌, arith, [], ◌++◌, length, Bool, true,
  false, Option, none, some, ◌==◌, append-nil, length-append,
}
use neolink.Base.Words.{Bytes, IsU32, u32}
use neolink.Wire.{Nom, Cookie, done}
use neolink.Wire.Reads.{Reads, bind-Reads, map-Reads, same_bytes}
use neolink.Bc.Crypto.{encrypt, message_decrypt-encrypt}
use neolink.Bc.Deps.{BcDeps}
use neolink.Bc.Model.{
  BcMeta, BcHeader, BcContext, ModernMsg, modern_msg, new_message, from_meta, to_meta, is_modern,
  has_payload_offset,
}
use neolink.Bc.Ser.{serialize_modern, ext_buf, payload_buf, bc_ext, bc_payload, offset_of}
use neolink.Bc.De.{bc_msg, bc_body, bc_modern_msg, parse_ext, parse_payload, ext_len}
use neolink.Bc.Codex.{send_protocol}
use neolink.Bc.Header.{FitsMeta, FitsOffset, header-Reads}
use neolink.Bc.Parts.{
  FitsExt, FitsPayload, parse_ext-none, parse_ext-some, parse_payload-none, parse_payload-xml,
  parse_payload-binary, modern_msg-Reads, ext_len-offset_of,
}
use neolink.Bc.Xml.{BcXml, BcPayloads, bc_xml, binary}
use neolink.Bc.Xml.Login.{Extension}

-- The two parts of the body, as they are sent.
module _ (deps : BcDeps) (c : Cookie) (context : BcContext) (m : BcMeta) where
  abbrev pub sent_ext : ModernMsg → Bytes
  sent_ext modern = ext_buf deps c m modern (send_protocol context m)

  abbrev pub sent_payload : ModernMsg → Bytes
  sent_payload modern = payload_buf deps c m modern (send_protocol context m)

  -- A message that fits the format, and the context it is read in.
  abbrev pub FitsModern : ModernMsg → Type 0
  FitsModern modern =
      FitsMeta m
      × (is_legacy ≡ false)
      × FitsExt deps m modern.extension
      × FitsPayload deps context m modern.extension modern.payload
      × IsU32 (length (sent_ext modern) + length (sent_payload modern))
    where
      is_legacy : Bool
      is_legacy = m.class == 0x6514

module _ (deps : BcDeps) (n : Nom) (c : Cookie) (context : BcContext) (m : BcMeta) where
  length-bc_ext :
      (e : Extension)
      → length (bc_ext deps c m.channel_id e (send_protocol context m))
        ≡ length (deps.ext_serialize e)
  unfolding bc_ext
  length-bc_ext e =
      ap length (c.slice_lem _)
      ∙ (message_decrypt-encrypt deps.cfb (send_protocol context m) m.channel_id
          (deps.ext_serialize e)).1.1

  length-bc_payload :
      (p : BcPayloads) (e : Option Extension)
      → FitsPayload deps context m e (some p)
      → 1 ≤ length (bc_payload deps c m.channel_id p (send_protocol context m))
  unfolding bc_payload
  length-bc_payload (bc_xml x) e f =
      let k =
        (message_decrypt-encrypt deps.cfb (send_protocol context m) m.channel_id
          (deps.xml_serialize x)).1.1 in
      rw c.slice_lem (omega (arith, k, deps.xml_serialize-some x))
  length-bc_payload (binary b) e (i, l, k) = rw c.slice_lem k

  ext_sent :
      (e : Extension)
      → (m.msg_id == 1) ≡ false
      → bc_ext deps c m.channel_id e (send_protocol context m)
        ≡ encrypt deps.cfb context.encryption_protocol m.channel_id (deps.ext_serialize e)
  unfolding bc_ext send_protocol
  ext_sent e h = rw (c.slice_lem, h)

  ext_done :
      (e : Option Extension) (p : Option BcPayloads) (len : ℕ) (buf : Bytes)
      → FitsExt deps m e
      → (let ext = sent_ext deps c context m (record { extension = e; payload = p }) in
          IsU32 (length ext)
          → parse_ext deps n context (from_meta m len (offset_of deps c m ext)) ext buf
            ≡ done (buf, e))
  unfolding ext_buf
  ext_done none p len buf f h =
      parse_ext-none deps n context m len _ [] buf
        (ext_len-offset_of deps c m [] (omega arith) (inr refl))
  ext_done (some e) p len buf (has, login, read) h =
      let ext = bc_ext deps c m.channel_id e (send_protocol context m) in
      let size = ext_len-offset_of deps c m ext h (inl has) in
      parse_ext-some deps n context m len _ e ext buf
        (omega (arith, size, length-bc_ext e, deps.ext_serialize-some e)) (ext_sent e login) read

  xml_sent :
      (x : BcXml)
      → bc_payload deps c m.channel_id (bc_xml x) (send_protocol context m)
        ≡ encrypt deps.cfb (send_protocol context m) m.channel_id (deps.xml_serialize x)
  unfolding bc_payload
  xml_sent x = c.slice_lem _

  binary_sent :
      (b : Bytes) → bc_payload deps c m.channel_id (binary b) (send_protocol context m) ≡ b
  unfolding bc_payload
  binary_sent b = c.slice_lem b

  payload_done :
      (e : Option Extension) (p : Option BcPayloads) (len : ℕ) (o : Option ℕ) (buf : Bytes)
      → FitsPayload deps context m e p
      → (let payload = sent_payload deps c context m (record { extension = e; payload = p }) in
          parse_payload deps n context (from_meta m len o) (length payload) e payload buf
          ≡ done (buf, p))
  unfolding payload_buf
  payload_done e none len o buf f = parse_payload-none deps n context m len o e [] buf
  payload_done e (some (bc_xml x)) len o buf f =
      parse_payload-xml deps n context m len o e x _ _ buf (length-bc_payload (bc_xml x) e f)
        (xml_sent x) f
  payload_done e (some (binary b)) len o buf f =
      rw (binary_sent b)
        (parse_payload-binary deps n context m len o e b _ buf (omega (arith, f.2)) f)

  ext_len-sent :
      (e : Option Extension) (p : Option BcPayloads)
      → FitsExt deps m e
      → (let ext = sent_ext deps c context m (record { extension = e; payload = p }) in
          IsU32 (length ext) → ext_len (offset_of deps c m ext) ≡ length ext)
  unfolding ext_buf
  ext_len-sent none p f h = ext_len-offset_of deps c m _ h (inr refl)
  ext_len-sent (some e) p f h = ext_len-offset_of deps c m _ h (inl f.0)

  pub offset_of-FitsOffset :
      (ext : Bytes) → FitsOffset (has_payload_offset m.class) (offset_of deps c m ext)
  unfolding offset_of
  offset_of-FitsOffset ext = if_offset (has_payload_offset m.class) (length ext)
    where
      if_offset : (has : Bool) (len : ℕ) → FitsOffset has (if has then some (u32 len) else none)
      if_offset true len = (refl, omega arith)
      if_offset false len = refl

  pub modern_body-Reads :
      (h : BcHeader) {bytes : Bytes} {modern : ModernMsg}
      → is_modern h ≡ true
      → Reads (bc_modern_msg deps n context h) bytes modern
      → Reads (bc_body deps n context h) bytes (modern_msg modern)
  unfolding bc_body
  modern_body-Reads h k r = record {
    whole = λ rest. rw (k, r.whole rest);
    part = λ front b back e. rw (k, r.part front b back e);
  }

  body-Reads :
      (e : Option Extension) (p : Option BcPayloads)
      → (let modern : ModernMsg = record { extension = e; payload = p } in
          let ext = sent_ext deps c context m modern in
          let payload = sent_payload deps c context m modern in
          FitsModern deps c context m modern
          → Reads
              (bc_body deps n context
                (from_meta m (u32 (length (ext ++ payload))) (offset_of deps c m ext)))
              (ext ++ payload)
              (modern_msg modern))
  unfolding is_modern from_meta
  body-Reads e p (f, cl, fe, fp, size) =
      let modern : ModernMsg = record { extension = e; payload = p } in
      let ext = sent_ext deps c context m modern in
      let payload = sent_payload deps c context m modern in
      let h : IsU32 (length ext) = omega arith in
      modern_body-Reads _ (rw cl refl) (
        modern_msg-Reads deps n context _ ext payload e p size (ext_len-sent e p fe h)
          (omega (arith, length-append ext payload)) (λ buf. ext_done e p _ buf fe h)
          (λ buf. payload_done e p _ _ buf fp))

  pub framed-Reads :
      (e : Option Extension) (p : Option BcPayloads)
      → (let modern : ModernMsg = record { extension = e; payload = p } in
          FitsModern deps c context m modern
          → Reads
              (bc_msg deps n context)
              (serialize_modern deps c m modern (send_protocol context m))
              (new_message m e p))
  unfolding bc_msg new_message serialize_modern to_meta from_meta
  framed-Reads e p fits =
      let modern : ModernMsg = record { extension = e; payload = p } in
      let ext = sent_ext deps c context m modern in
      let payload = sent_payload deps c context m modern in
      same_bytes (simp (c.slice_lem, c.tuple_cons, c.tuple_nil, append-nil)) (
        bind-Reads _
          (header-Reads deps n c m (u32 (length (ext ++ payload))) (offset_of deps c m ext) fits.0
            (omega arith) (offset_of-FitsOffset ext))
          (map-Reads (λ b. record { meta = m; body = b }) (body-Reads e p fits)))
