-- ===== src/Bc/Crypto.antt =====
-- crates/core/src/bc/crypto.rs: the encryption modes of the Baichuan protocol. AES-128 in CFB mode
-- is the crates aes and cfb_mode: a parameter.
use mathlib.Core.Option
use neolink.Base.{
  ◌<◌, ◌==◌, Bool-cases, inl, inr, ℕ, ◌%◌, ◌≡◌, refl, sym, ap, ◌∙◌, [], ◌∷◌, length, drop, bit_xor,
  zero, suc, ◌+◌, ◌≤◌, get_or, get_elem?, arith, zip_cycle, zip_cycle_twice, length-zip_cycle,
}
use neolink.Base.Bits.{bit_xor_cancel, bit_xor_assoc, bit_xor_comm}
use neolink.Base.Words.{Bytes, u8}

-- A cipher made from a key and the initial vector; a clone of it is used for each buffer, so that
-- the result depends on these and the buffer alone. Documented behaviour: decryption undoes
-- encryption under the same key and vector, the other way about as well, and the length is kept.
pub record AesCfb : Type 0 where
  pub encrypt_cfb : Bytes → Bytes → Bytes → Bytes
  pub decrypt_cfb : Bytes → Bytes → Bytes → Bytes
  pub decrypt-encrypt_cfb : (key iv b : Bytes) → decrypt_cfb key iv (encrypt_cfb key iv b) ≡ b
  pub encrypt-decrypt_cfb : (key iv b : Bytes) → encrypt_cfb key iv (decrypt_cfb key iv b) ≡ b
  pub length-encrypt_cfb : (key iv b : Bytes) → length (encrypt_cfb key iv b) ≡ length b

abbrev pub xml_key_tail : Bytes
xml_key_tail = 0x2d ∷ 0x3c ∷ 0x4b ∷ 0x5a ∷ 0x69 ∷ 0x78 ∷ 0xff ∷ []

abbrev pub xml_key : Bytes
xml_key = 0x1f ∷ xml_key_tail

-- The text "0123456789abcdef".
abbrev pub iv : Bytes
iv = 48 ∷ 49 ∷ 50 ∷ 51 ∷ 52 ∷ 53 ∷ 54 ∷ 55 ∷ 56 ∷ 57 ∷ 97 ∷ 98 ∷ 99 ∷ 100 ∷ 101 ∷ 102 ∷ []

-- The ciphers of the two AES modes are given by their key.
pub data EncryptionProtocol : Type 0 where
  unencrypted : EncryptionProtocol
  bc_encrypt : EncryptionProtocol
  aes : Bytes → EncryptionProtocol
  full_aes : Bytes → EncryptionProtocol

-- `key ^ (offset as u8)` over a byte.
unfoldable pub mask : ℕ → ℕ → ℕ → ℕ
mask offset key b = bit_xor (bit_xor b key) (u8 offset)

-- The bytes against the key, which is taken round and round from `offset % 8`.
unfoldable pub xor_key : ℕ → Bytes → Bytes
xor_key offset buf = zip_cycle (mask offset) 0x1f xml_key_tail (drop (offset % 8) xml_key) buf

module _ (cfb : AesCfb) where
  unfoldable pub decrypt : EncryptionProtocol → ℕ → Bytes → Bytes
  decrypt unencrypted offset buf = buf
  decrypt bc_encrypt offset buf = xor_key offset buf
  decrypt (aes key) offset buf = cfb.decrypt_cfb key iv buf
  decrypt (full_aes key) offset buf = cfb.decrypt_cfb key iv buf

  unfoldable pub encrypt : EncryptionProtocol → ℕ → Bytes → Bytes
  encrypt unencrypted offset buf = decrypt unencrypted offset buf
  encrypt bc_encrypt offset buf = decrypt bc_encrypt offset buf
  encrypt (aes key) offset buf = cfb.encrypt_cfb key iv buf
  encrypt (full_aes key) offset buf = cfb.encrypt_cfb key iv buf

mask_twice : (offset key b : ℕ) → mask offset key (mask offset key b) ≡ b
unfolding mask
mask_twice offset key b =
    let o = u8 offset in
    let x = bit_xor b key in
    ap (λ t. bit_xor t o)
      (bit_xor_assoc x o key
        ∙ ap (λ t. bit_xor x t) (bit_xor_comm o key)
        ∙ sym (bit_xor_assoc x key o)
        ∙ ap (λ t. bit_xor t o) (bit_xor_cancel b key))
    ∙ bit_xor_cancel b o

xor_key_twice : (offset : ℕ) (buf : Bytes) → xor_key offset (xor_key offset buf) ≡ buf
unfolding xor_key
xor_key_twice offset buf =
    zip_cycle_twice (mask offset) 0x1f xml_key_tail (mask_twice offset) (drop (offset % 8) xml_key)
      buf

-- In every mode and at every offset, what is encrypted at an offset is decrypted at the same
-- offset to what it was, encryption undoes decryption as well, and it keeps the length.
pub message_decrypt-encrypt :
    (cfb : AesCfb) (mode : EncryptionProtocol) (offset : ℕ) (buf : Bytes)
    → (decrypt cfb mode offset (encrypt cfb mode offset buf) ≡ buf)
      × ((encrypt cfb mode offset (decrypt cfb mode offset buf) ≡ buf)
          × (length (encrypt cfb mode offset buf) ≡ length buf))
unfolding decrypt encrypt xor_key
message_decrypt-encrypt cfb unencrypted offset buf = (refl, (refl, refl))
message_decrypt-encrypt cfb bc_encrypt offset buf = (
  xor_key_twice offset buf,
  (
    xor_key_twice offset buf,
    length-zip_cycle (mask offset) 0x1f xml_key_tail (drop (offset % 8) xml_key) buf,
  ),
)
message_decrypt-encrypt cfb (aes key) offset buf = (
  cfb.decrypt-encrypt_cfb key iv buf,
  (cfb.encrypt-decrypt_cfb key iv buf, cfb.length-encrypt_cfb key iv buf),
)
message_decrypt-encrypt cfb (full_aes key) offset buf = (
  cfb.decrypt-encrypt_cfb key iv buf,
  (cfb.encrypt-decrypt_cfb key iv buf, cfb.length-encrypt_cfb key iv buf),
)

drop-get_or : (xs : Bytes) (r : ℕ) → r < length xs → drop r xs ≡ get_or xs r 0 ∷ drop (suc r) xs
drop-get_or [] r h = let clash : ⊥ = omega (arith, h) in elim clash [ ]
drop-get_or (x ∷ xs) zero h = refl
drop-get_or (x ∷ xs) (suc r) h = drop-get_or xs r (omega (arith, h))

-- One byte of the key, and where the key goes on: from its start again after its last byte.
zip_cycle_next :
    (f : ℕ → ℕ → ℕ) (r b : ℕ) (bs : Bytes)
    → r ≤ 8
    → zip_cycle f 0x1f xml_key_tail (drop r xml_key) (b ∷ bs)
      ≡ f (get_or xml_key (r % 8) 0) b ∷ zip_cycle f 0x1f xml_key_tail (drop (r % 8 + 1) xml_key) bs
unfolding zip_cycle
zip_cycle_next f r b bs h = elim (Bool-cases (r == 8)) [
  | inl e ↦ let last : r ≡ 8 = ground arith in rw last refl
  | inr e ↦
      let low : r < 8 = ground arith in
      let same : r % 8 ≡ r = omega (arith, low) in
      let one : r + 1 ≡ suc r = omega arith in rw (same, one, drop-get_or xml_key r low)
]

-- The byte at `i` of the buffer, against its byte of the key.
get_elem?-zip_cycle :
    (f : ℕ → ℕ → ℕ) (r i : ℕ) (bs : Bytes)
    → r ≤ 8
    → get_elem? (zip_cycle f 0x1f xml_key_tail (drop r xml_key) bs) i
      ≡ Option.map (f (get_or xml_key ((r + i) % 8) 0)) (get_elem? bs i)
unfolding zip_cycle
get_elem?-zip_cycle f r i [] h = ground arith
get_elem?-zip_cycle f r zero (b ∷ bs) h =
    let e : r + 0 ≡ r = omega arith in rw (zip_cycle_next f r b bs h, e)
get_elem?-zip_cycle f r (suc i) (b ∷ bs) h =
    let e : (r % 8 + 1 + i) % 8 ≡ (r + suc i) % 8 = omega arith in
    rw (zip_cycle_next f r b bs h, sym e) (get_elem?-zip_cycle f (r % 8 + 1) i bs (omega arith))

-- What BCEncrypt makes of a buffer at an offset has at each place the byte of the buffer against
-- the byte of the key at the offset and the place together, the key being taken round and round,
-- and against the lowest byte of the offset, and no byte at a place where the buffer has none; at
-- the same offset it is decrypted to the buffer.
pub get_elem?-encrypt :
    (cfb : AesCfb) (offset i : ℕ) (buf : Bytes)
    → (get_elem? (encrypt cfb bc_encrypt offset buf) i
        ≡ Option.map
            (λ b. bit_xor (bit_xor b (get_or xml_key ((offset + i) % 8) 0)) (offset % 256))
            (get_elem? buf i))
      × (decrypt cfb bc_encrypt offset (encrypt cfb bc_encrypt offset buf) ≡ buf)
unfolding encrypt decrypt xor_key mask
get_elem?-encrypt cfb offset i buf =
    let e : (offset % 8 + i) % 8 ≡ (offset + i) % 8 = omega arith in
    (
      rw (sym e) (get_elem?-zip_cycle (mask offset) (offset % 8) i buf (omega arith)),
      xor_key_twice offset buf,
    )
