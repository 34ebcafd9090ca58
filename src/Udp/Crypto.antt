-- ===== src/Udp/Crypto.antt =====
-- crates/core/src/bcudp/xml_crypto.rs and crc.rs. The sum of a key word and the offset wraps, as in
-- a release build; a debug build panics where it would.
use neolink.Base.{
  ℕ, ◌+◌, ◌≡◌, arith, List, [], ◌∷◌, ◌++◌, length, Option, bit_xor, zip_cycle, length-zip_cycle,
  zip_cycle_twice,
}
use neolink.Base.Words.{Bytes, IsU32, u32, le_bytes}
use neolink.Base.Bits.{bit_xor_comm, bit_xor_cancel, bit_xor-lt-pow}
use neolink.Udp.Model.{UdpXml}

-- crc32fast's `Hasher` from an initial value on, and quick_xml with the derived code.
pub record UdpDeps : Type 0 where
  pub crc32 : ℕ → Bytes → ℕ
  pub xml_serialize : UdpXml → Bytes
  pub xml_try_parse : Bytes → Option UdpXml
  pub crc32-IsU32 : (initial : ℕ) (b : Bytes) → IsU32 (crc32 initial b)

abbrev pub xml_key : List ℕ
xml_key =
    0x1f2d3c4b ∷ 0x5a6c7f8d ∷ 0x38172e4b ∷ 0x8271635a ∷ 0x863f1a2b ∷ 0xa5c6f7d8 ∷ 0x8371e1b4
    ∷ 0x17f2d3a5 ∷ []

xor_twice : (j b : ℕ) → bit_xor j (bit_xor j b) ≡ b
xor_twice j b = rw (bit_xor_comm j b, bit_xor_comm j (bit_xor b j)) (bit_xor_cancel b j)

-- `XML_KEY.iter().flat_map(|i| (i + offset).to_le_bytes())`
key_bytes : ℕ → List ℕ → Bytes
key_bytes offset [] = []
key_bytes offset (i ∷ is) = le_bytes 4 (u32 (i + offset)) ++ key_bytes offset is

-- `buf.iter().zip(key.cycle()).map(|(byte, key)| key ^ byte)`; the cycle of no keys ends at once.
cycle_key : Bytes → Bytes → Bytes
cycle_key [] buf = []
cycle_key (k ∷ ks) buf = zip_cycle bit_xor k ks (k ∷ ks) buf

unfoldable pub decrypt : ℕ → Bytes → Bytes
unfolding cycle_key key_bytes zip_cycle le_bytes
decrypt offset buf = cycle_key (key_bytes offset xml_key) buf

unfoldable pub encrypt : ℕ → Bytes → Bytes
unfolding decrypt
encrypt offset buf = decrypt offset buf

-- `calc_crc`: crc32fast is given the initial value inverted, and its last inversion is undone.
unfoldable pub calc_crc : UdpDeps → Bytes → ℕ
calc_crc deps payload = bit_xor (deps.crc32 0xffff_ffff payload) 0xffff_ffff

-- A payload is as long encrypted as it is plain, and decrypting with the same transmission id gives
-- it back.
pub decrypt-encrypt :
    (tid : ℕ) (b : Bytes) → (decrypt tid (encrypt tid b) ≡ b) × (length (encrypt tid b) ≡ length b)
unfolding encrypt
decrypt-encrypt tid b =
    (zip_cycle_twice bit_xor _ _ xor_twice _ b, length-zip_cycle bit_xor _ _ _ b)

pub calc_crc-IsU32 : (deps : UdpDeps) (b : Bytes) → IsU32 (calc_crc deps b)
unfolding calc_crc
calc_crc-IsU32 deps b =
    bit_xor-lt-pow 32 _ 0xffff_ffff (deps.crc32-IsU32 0xffff_ffff b) (omega arith)
