-- ===== src/Bc/Credentials.antt =====
-- crates/core/src/bc_protocol/credentials.rs: the login of a camera and the key made from it. MD5 is
-- the crate md5: a parameter, whose digest has 16 bytes.
use neolink.Base.{
  ℕ, ◌+◌, ◌-◌, ◌/◌, ◌%◌, ◌≡◌, [], ◌∷◌, ◌++◌, length, Option, none, some, take, ltb, if◌then◌else◌,
}
use neolink.Base.Words.{Bytes}

pub record Credentials : Type 0 where
  pub username : Bytes
  pub password : Option Bytes

pub record Md5 : Type 0 where
  pub compute : Bytes → Bytes
  pub length-compute : (b : Bytes) → length (compute b) ≡ 16

-- A digit of `{:X}`.
abbrev hex_digit : ℕ → ℕ
hex_digit d = if ltb d 10 then d + b'0' else d - 10 + b'A'

-- `{:X}` of a digest.
abbrev pub upper_hex : Bytes → Bytes
upper_hex [] = []
upper_hex (b ∷ bs) = hex_digit (b / 16) ∷ hex_digit (b % 16) ∷ upper_hex bs

abbrev pub unwrap_or_default : Option Bytes → Bytes
unwrap_or_default none = []
unwrap_or_default (some text) = text

-- `Credentials::make_aeskey`
unfoldable pub make_aeskey : Md5 → Credentials → Bytes → Bytes
make_aeskey md5 credentials nonce =
    take 16 (
      upper_hex (md5.compute (nonce ++ (b'-' ∷ unwrap_or_default credentials.password)))
      ++ (0 ∷ []))
