-- ===== src/Base/Words.antt =====
-- Machine words as plain numbers: wrapping is written out, and a range is a predicate.
use Prim.Native.Nat.{ℕ, zero, suc, ◌+◌, ◌-◌, ◌*◌, ◌/◌, ◌%◌, ◌<◌, min}
use mathlib.Core.Path.{◌≡◌, refl}
use mathlib.Core.List.{List, [], ◌∷◌}
use native.Mathlib.Omega.{arith}
use mathlib.Core.Bool.{Bool, true, false, ◌&&◌}
use neolink.Base.Lists.{length, All}
use neolink.Base.Tests.{◌==◌, ==_self}

-- A byte slice.
abbrev pub Bytes : Type 0
Bytes = List ℕ

abbrev pub IsByte : ℕ → Type 0
IsByte b = b < 256

abbrev pub IsU16 : ℕ → Type 0
IsU16 n = n < 65536

-- Also the bit patterns of an `i32`.
abbrev pub IsU32 : ℕ → Type 0
IsU32 n = n < 4294967296

-- The casts: `as u32`, `as u16` and `as u8`.
abbrev pub u32 : ℕ → ℕ
u32 n = n % 4294967296

abbrev pub u16 : ℕ → ℕ
u16 n = n % 65536

abbrev pub u8 : ℕ → ℕ
u8 n = n % 256

abbrev pub u64_max : ℕ
u64_max = 18446744073709551615

-- `u64::saturating_add`
abbrev pub saturating_add_u64 : ℕ → ℕ → ℕ
saturating_add_u64 a b = min (a + b) u64_max

-- `u32::wrapping_sub`
abbrev pub wrapping_sub_u32 : ℕ → ℕ → ℕ
wrapping_sub_u32 a b = (a + 4294967296 - b) % 4294967296

-- `to_le_bytes` of a word of `k` bytes.
unfoldable pub le_bytes : ℕ → ℕ → Bytes
le_bytes zero x = []
le_bytes (suc k) x = (x % 256) ∷ le_bytes k (x / 256)

-- The number that a little-endian run of bytes stands for.
abbrev pub of_le_bytes : Bytes → ℕ
of_le_bytes [] = 0
of_le_bytes (b ∷ bs) = b + 256 * of_le_bytes bs

pub length-le_bytes : (k x : ℕ) → length (le_bytes k x) ≡ k
unfolding le_bytes
length-le_bytes zero x = refl
length-le_bytes (suc k) x = omega (arith, length-le_bytes k (x / 256))

pub le_bytes-IsByte : (k x : ℕ) → All IsByte (le_bytes k x)
unfolding le_bytes
le_bytes-IsByte zero x = tt
le_bytes-IsByte (suc k) x = (omega arith, le_bytes-IsByte k (x / 256))

-- `==` on byte slices.
unfoldable pub bytes_eq : Bytes → Bytes → Bool
bytes_eq [] [] = true
bytes_eq [] (c ∷ cs) = false
bytes_eq (b ∷ bs) [] = false
bytes_eq (b ∷ bs) (c ∷ cs) = b == c && bytes_eq bs cs

pub bytes_eq_self : (b : Bytes) → bytes_eq b b ≡ true
unfolding bytes_eq
bytes_eq_self [] = refl
bytes_eq_self (b ∷ bs) = rw (==_self b, bytes_eq_self bs)
