-- ===== src/Bc/Underflow.antt =====
-- A header whose offset lies beyond its body: the length of the payload wraps.
use neolink.Base.{
  ℕ, ◌+◌, ◌-◌, ◌%◌, ◌≡◌, ◌<◌, ◌≤◌, arith, ◌++◌, length, true, false, ltb, take, drop, Option, some,
  ◌==◌, length-take, length-drop, take-append-drop, Bool-cases, inl, inr, subst,
}
use neolink.Base.Words.{Bytes, IsU32}
use neolink.Wire.{Nom, Cookie, done, incomplete}
use neolink.Bc.Deps.{BcDeps}
use neolink.Bc.Model.{Bc, BcMeta, BcContext, from_meta, is_modern, has_payload_offset}
use neolink.Bc.Ser.{bc_header}
use neolink.Bc.De.{deserialize, bc_msg, bc_body, bc_modern_msg}
use neolink.Bc.Codex.{BcCodex, decode, no_message}
use neolink.Bc.Header.{FitsMeta, header-Reads}

module _ (deps : BcDeps) (n : Nom) (context : BcContext) where
  modern_msg_short :
      (m : BcMeta) (len offset : ℕ) (rest : Bytes)
      → IsU32 offset
      → len < offset
      → length rest < len + 4294967296
      → bc_modern_msg deps n context (from_meta m len (some offset)) rest ≡ incomplete
  unfolding bc_modern_msg from_meta
  modern_msg_short m len offset rest u h k = elim (Bool-cases (ltb (length rest) offset)) [
    | inl short ↦ rw (n.take_short rest offset (ground arith))
    | inr long ↦
        let enough : offset ≤ length rest = ground arith in
        let taken =
          n.take_lem (take offset rest) (drop offset rest) offset
            (omega (arith, length-take offset rest)) in
        let read : n.take offset rest ≡ done (drop offset rest, take offset rest) =
          subst (λ b. n.take offset b ≡ done (drop offset rest, take offset rest))
            (take-append-drop offset rest) taken in
        rw (
          read,
          n.take_short (drop offset rest) ((len + 4294967296 - offset) % 4294967296)
              (omega (arith, length-drop offset rest)),
        )
  ]

modern_from_meta :
    (m : BcMeta) (len : ℕ) (o : Option ℕ)
    → (m.class == 0x6514) ≡ false
    → is_modern (from_meta m len o) ≡ true
unfolding is_modern from_meta
modern_from_meta m len o cl = rw cl

module _ (deps : BcDeps) (n : Nom) (c : Cookie) where
  msg_short :
      (context : BcContext) (m : BcMeta) (len offset : ℕ) (rest : Bytes)
      → FitsMeta m
      → (m.class == 0x6514) ≡ false
      → has_payload_offset m.class ≡ true
      → IsU32 offset
      → len < offset
      → length rest < len + 4294967296
      → bc_msg deps n context (bc_header deps c (from_meta m len (some offset)) ++ rest)
        ≡ incomplete
  unfolding bc_msg bc_body
  msg_short context m len offset rest f cl has u h k =
      let r = header-Reads deps n c m len (some offset) f (omega arith) (has, u) in
      let modern : is_modern (from_meta m len (some offset)) ≡ true =
        modern_from_meta m len (some offset) cl in
      rw (r.whole rest, modern, modern_msg_short deps n context m len offset rest u h k)

  -- After a header whose offset lies beyond its body, the codec makes nothing of what follows until
  -- it is 4 GiB.
  pub decode_underflow :
      (codex : BcCodex) (m : BcMeta) (len offset : ℕ) (rest : Bytes)
      → FitsMeta m
      → (m.class == 0x6514) ≡ false
      → has_payload_offset m.class ≡ true
      → IsU32 offset
      → len < offset
      → length rest < len + 4294967296
      → decode deps n codex (bc_header deps c (from_meta m len (some offset)) ++ rest)
        ≡ (no_message, codex, bc_header deps c (from_meta m len (some offset)) ++ rest)
  unfolding decode deserialize
  decode_underflow codex m len offset rest f cl has u h k =
      let buf = bc_header deps c (from_meta m len (some offset)) ++ rest in
      rw (
        n.consumed_incomplete Bc (bc_msg deps n codex.context) buf
          (msg_short codex.context m len offset rest f cl has u h k))
