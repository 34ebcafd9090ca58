-- ===== src/Bc/Session.antt =====
-- Messages through the codec: what one side encodes, a side in the same context decodes.
use neolink.Base.{
  ℕ, ◌/◌, ◌≡◌, ◌<◌, refl, arith, ◌∷◌, ◌++◌, Bool, true, false, Option, none, some, ◌==◌, Bool-cases,
  inl, inr, drop-append_length, if◌then◌else◌,
}
use neolink.Base.Words.{Bytes}
use neolink.Wire.{Nom, Cookie, done}
use neolink.Wire.Reads.{consumed-Reads}
use neolink.Bc.Deps.{BcDeps}
use neolink.Bc.Model.{BcMeta, BcContext, ModernMsg, modern_msg, new_message}
use neolink.Bc.Ser.{serialize, serialize_modern, written}
use neolink.Bc.De.{deserialize, sets_encryption}
use neolink.Bc.Codex.{
  BcCodex, encode, decode, message, no_message, send_protocol, negotiate, negotiate_with,
  login_nonce, switch, on_off,
}
use neolink.Bc.Parts.{FitsPayload}
use neolink.Bc.RoundTrip.{FitsModern, framed-Reads}
use neolink.Bc.Xml.{BcPayloads, bc_xml, binary}
use neolink.Bc.Xml.Login.{Extension}

-- The bytes of a message in a context.
abbrev pub sent : BcDeps → Cookie → BcContext → BcMeta → ModernMsg → Bytes
sent deps c context m modern = serialize_modern deps c m modern (send_protocol context m)

-- The codec once it has seen the message.
abbrev pub after : BcCodex → BcMeta → ModernMsg → BcCodex
after codex m modern = record {
  context = switch codex.context m.msg_num (on_off (modern_msg modern));
}

module _ (deps : BcDeps) (context : BcContext) where
  negotiate_with-other :
      (response_code : ℕ) (o : Option Bytes)
      → (response_code / 256 == 0xdd) ≡ false
      → negotiate_with deps context response_code o ≡ some context
  negotiate_with-other response_code none h = refl
  negotiate_with-other response_code (some nonce) h = rw h

  sets_none :
      (response_code : ℕ)
      → response_code < 65536
      → sets_encryption response_code ≡ false
      → (response_code / 256 == 0xdd) ≡ false
  sets_none response_code h e = ground arith

  if_none :
      (m : BcMeta) (login : Bool)
      → negotiate_with deps context m.response_code (if login then none else none) ≡ some context
  if_none m true = refl
  if_none m false = refl

  negotiate-FitsPayload :
      (m : BcMeta) (e : Option Extension) (p : Option BcPayloads)
      → m.response_code < 65536
      → FitsPayload deps context m e p
      → negotiate deps context (new_message m e p) ≡ some context
  unfolding negotiate login_nonce new_message
  negotiate-FitsPayload m e none h f = if_none m (m.msg_id == 1)
  negotiate-FitsPayload m e (some (binary b)) h f = if_none m (m.msg_id == 1)
  negotiate-FitsPayload m e (some (bc_xml x)) h (i, s, r) = elim (Bool-cases (m.msg_id == 1)) [
    | inl login ↦
        let other : sets_encryption m.response_code ≡ false = ground arith in
        rw login (negotiate_with-other m.response_code _ (sets_none m.response_code h other))
    | inr other ↦ rw other
  ]

module _ (deps : BcDeps) (n : Nom) (c : Cookie) where
  deserialize_sent :
      (context : BcContext) (m : BcMeta) (modern : ModernMsg) (rest : Bytes)
      → FitsModern deps c context m modern
      → deserialize deps n context (sent deps c context m modern ++ rest)
        ≡ done (rest, new_message m modern.extension modern.payload)
  unfolding deserialize
  deserialize_sent context m modern rest h =
      let r =
        consumed-Reads n (framed-Reads deps n c context m modern.extension modern.payload h) in
      rw (r.whole rest, drop-append_length (sent deps c context m modern) rest)

  -- What the codec encodes for a message that fits the format is appended to the buffer, and a
  -- codec in the same context decodes it to the message, keeps what follows it, and switches
  -- binary mode as the extension says.
  pub codex_decode-encode :
      (codex : BcCodex) (m : BcMeta) (modern : ModernMsg) (dst rest : Bytes)
      → FitsModern deps c codex.context m modern
      → (encode deps c codex (new_message m modern.extension modern.payload) dst
          ≡ written (dst ++ sent deps c codex.context m modern))
        × (decode deps n codex (sent deps c codex.context m modern ++ rest)
            ≡ (message (new_message m modern.extension modern.payload), after codex m modern, rest))
  unfolding encode serialize decode new_message
  codex_decode-encode codex m modern dst rest h = (
    refl,
    rw (
      deserialize_sent codex.context m modern rest h,
      negotiate-FitsPayload deps codex.context m modern.extension modern.payload h.0.3 h.3,
    ),
  )

  -- Of an initial part of such a message the codec makes nothing, and keeps it.
  pub codex_decode-part :
      (codex : BcCodex) (m : BcMeta) (modern : ModernMsg) (front : Bytes) (b : ℕ) (back : Bytes)
      → FitsModern deps c codex.context m modern
      → front ++ (b ∷ back) ≡ sent deps c codex.context m modern
      → decode deps n codex front ≡ (no_message, codex, front)
  unfolding decode deserialize
  codex_decode-part codex m modern front b back h e =
      let r =
        consumed-Reads n
          (framed-Reads deps n c codex.context m modern.extension modern.payload h) in
      rw (r.part front b back e)
