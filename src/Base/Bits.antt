-- ===== src/Base/Bits.antt =====
-- Laws of the bit operations at every width: the xor of ciphers, and masks as remainders.
mod Step
use Step.{bit_xor_step, bit_and_step, bit_or_step}
use Prim.Native.Nat.{
  bit_and, bit_or, bit_xor, bit_xor-bitwise, differ, min, max, ℕ, zero, suc, ◌+◌, ◌*◌, ◌/◌, ◌%◌,
  ◌^◌, ◌≤◌, ◌<◌,
}
use mathlib.Core.Path.{◌≡◌, refl, sym, ap, ◌∙◌}
use native.Mathlib.Nat.{pow-suc, one-le-pow}
use native.Mathlib.Omega.{arith}

differ_comm : (x y : ℕ) → differ x y ≡ differ y x
differ_comm zero zero = refl
differ_comm zero (suc y) = refl
differ_comm (suc x) zero = refl
differ_comm (suc x) (suc y) = differ_comm x y

differ-lt-two : (x y : ℕ) → x < 2 → y < 2 → differ x y < 2
differ-lt-two zero y h k = k
differ-lt-two (suc x) zero h k = h
differ-lt-two (suc zero) (suc y) h k = omega arith
differ-lt-two (suc (suc x)) (suc y) h k = absurd (omega arith)

differ_assoc : (x y z : ℕ) → x < 2 → y < 2 → z < 2 → differ (differ x y) z ≡ differ x (differ y z)
differ_assoc zero y z h k l = refl
differ_assoc (suc zero) zero z h k l = refl
differ_assoc (suc zero) (suc zero) zero h k l = refl
differ_assoc (suc zero) (suc zero) (suc zero) h k l = refl
differ_assoc (suc zero) (suc zero) (suc (suc z)) h k l = absurd (omega arith)
differ_assoc (suc zero) (suc (suc y)) z h k l = absurd (omega arith)
differ_assoc (suc (suc x)) y z h k l = absurd (omega arith)

bit_xor-half : (a b : ℕ) → bit_xor a b / 2 ≡ bit_xor (a / 2) (b / 2)
bit_xor-half a b =
    omega (arith, bit_xor_step a b, differ-lt-two (a % 2) (b % 2) (omega arith) (omega arith))

bit_xor-parity : (a b : ℕ) → bit_xor a b % 2 ≡ differ (a % 2) (b % 2)
bit_xor-parity a b =
    omega (arith, bit_xor_step a b, differ-lt-two (a % 2) (b % 2) (omega arith) (omega arith))

zero-bit_xor : (b : ℕ) → bit_xor 0 b ≡ b
zero-bit_xor b = bit_xor-bitwise 0 b

comm_fuel : (n a b : ℕ) → a + b ≤ n → bit_xor a b ≡ bit_xor b a
comm_fuel zero zero zero h = refl
comm_fuel zero zero (suc b) h = absurd (omega arith)
comm_fuel zero (suc a) b h = absurd (omega arith)
comm_fuel (suc n) a b h = omega (
  arith,
  bit_xor_step a b,
  bit_xor_step b a,
  differ_comm (a % 2) (b % 2),
  comm_fuel n (a / 2) (b / 2) (omega arith),
)

pub bit_xor_comm : (a b : ℕ) → bit_xor a b ≡ bit_xor b a
bit_xor_comm a b = comm_fuel (a + b) a b (omega arith)

-- One digit of the associative law.
assoc_step :
    (a b c : ℕ)
    → bit_xor (bit_xor (a / 2) (b / 2)) (c / 2) ≡ bit_xor (a / 2) (bit_xor (b / 2) (c / 2))
    → bit_xor (bit_xor a b) c ≡ bit_xor a (bit_xor b c)
assoc_step a b c ih =
    bit_xor_step (bit_xor a b) c
    ∙ rw (bit_xor-half, bit_xor-parity)
        (rw (
          bit_xor_step a (bit_xor b c),
          bit_xor-half b c,
          bit_xor-parity b c,
          differ_assoc (a % 2) (b % 2) (c % 2) (omega arith) (omega arith) (omega arith),
          ih,
        ))

assoc_fuel : (n a b c : ℕ) → a + b + c ≤ n → bit_xor (bit_xor a b) c ≡ bit_xor a (bit_xor b c)
assoc_fuel zero zero b c h = rw (zero-bit_xor b, zero-bit_xor (bit_xor b c))
assoc_fuel zero (suc a) b c h = absurd (omega arith)
assoc_fuel (suc n) a b c h = assoc_step a b c (assoc_fuel n (a / 2) (b / 2) (c / 2) (omega arith))

pub bit_xor_assoc : (a b c : ℕ) → bit_xor (bit_xor a b) c ≡ bit_xor a (bit_xor b c)
bit_xor_assoc a b c = assoc_fuel (a + b + c) a b c (omega arith)

differ_self : (x : ℕ) → differ x x ≡ 0
differ_self zero = refl
differ_self (suc x) = differ_self x

self_fuel : (n a : ℕ) → a ≤ n → bit_xor a a ≡ 0
self_fuel n zero h = refl
self_fuel zero (suc a) h = absurd (omega arith)
self_fuel (suc n) (suc a) h = omega (
  arith,
  bit_xor_step (suc a) (suc a),
  differ_self (suc a % 2),
  self_fuel n (suc a / 2) (omega arith),
)

pub bit_xor_self : (a : ℕ) → bit_xor a a ≡ 0
bit_xor_self a = self_fuel a a (omega arith)

-- A key applied twice drops out.
pub bit_xor_cancel : (a k : ℕ) → bit_xor (bit_xor a k) k ≡ a
bit_xor_cancel a k = bit_xor_assoc a k k ∙ rw (bit_xor_self k, bit_xor_comm a 0) (zero-bit_xor a)

-- Words of `k` bits are closed under xor.
pub bit_xor-lt-pow : (k a b : ℕ) → a < 2 ^ k → b < 2 ^ k → bit_xor a b < 2 ^ k
bit_xor-lt-pow zero a b h l = let e : a ≡ 0 = omega arith in rw (e, zero-bit_xor b) l
bit_xor-lt-pow (suc k) a b h l = omega (
  arith,
  pow-suc 2 k,
  bit_xor_step a b,
  differ-lt-two (a % 2) (b % 2) (omega arith) (omega arith),
  bit_xor-lt-pow k (a / 2) (b / 2) (omega (arith, pow-suc 2 k)) (omega (arith, pow-suc 2 k)),
)

and-zero_fuel : (n a : ℕ) → a ≤ n → bit_and a 0 ≡ 0
and-zero_fuel n zero h = refl
and-zero_fuel zero (suc a) h = absurd (omega arith)
and-zero_fuel (suc n) (suc a) h =
    omega (arith, bit_and_step (suc a) 0, and-zero_fuel n (suc a / 2) (omega arith))

pub bit_and-zero : (a : ℕ) → bit_and a 0 ≡ 0
bit_and-zero a = and-zero_fuel a a (omega arith)

pub bit_and-one : (a : ℕ) → bit_and a 1 ≡ a % 2
bit_and-one a = omega (arith, bit_and_step a 1, bit_and-zero (a / 2))

pub bit_and_three : (a : ℕ) → bit_and a 3 ≡ a % 4
bit_and_three a = omega (arith, bit_and_step a 3, bit_and-one (a / 2))

pub bit_and_seven : (a : ℕ) → bit_and a 7 ≡ a % 8
bit_and_seven a = omega (arith, bit_and_step a 7, bit_and_three (a / 2))

pub bit_and_nibble : (a : ℕ) → bit_and a 15 ≡ a % 16
bit_and_nibble a = omega (arith, bit_and_step a 15, bit_and_seven (a / 2))

bit_and_31 : (a : ℕ) → bit_and a 31 ≡ a % 32
bit_and_31 a = omega (arith, bit_and_step a 31, bit_and_nibble (a / 2))

bit_and_63 : (a : ℕ) → bit_and a 63 ≡ a % 64
bit_and_63 a = omega (arith, bit_and_step a 63, bit_and_31 (a / 2))

pub bit_and_septet : (a : ℕ) → bit_and a 127 ≡ a % 128
bit_and_septet a = omega (arith, bit_and_step a 127, bit_and_63 (a / 2))

pub bit_and_byte : (a : ℕ) → bit_and a 255 ≡ a % 256
bit_and_byte a = omega (arith, bit_and_step a 255, bit_and_septet (a / 2))

or-zero_fuel : (n a : ℕ) → a ≤ n → bit_or a 0 ≡ a
or-zero_fuel n zero h = refl
or-zero_fuel zero (suc a) h = absurd (omega arith)
or-zero_fuel (suc n) (suc a) h =
    omega (arith, bit_or_step (suc a) 0, or-zero_fuel n (suc a / 2) (omega arith))

-- `(q << k) | r` is a sum when `r` fits `k` bits.
pub bit_or_fields : (k q r : ℕ) → r < 2 ^ k → bit_or (q * 2 ^ k) r ≡ q * 2 ^ k + r
bit_or_fields zero q r fits = ground (arith, or-zero_fuel q q)
bit_or_fields (suc k) q r fits = ground (
  arith,
  bit_or_step (q * 2 ^ suc k) r,
  shift_suc q k,
  bit_or_fields k q (r / 2) (omega (arith, pow-suc 2 k)),
)
  where
    shift_suc : (q k : ℕ) → q * 2 ^ suc k ≡ 2 * (q * 2 ^ k)
    shift_suc q k = omega (arith, ap (λ (t : ℕ). q * t) (pow-suc 2 k))

differ-zero : (a b : ℕ) → b ≡ 0 → differ a b ≡ a
differ-zero zero zero e = refl
differ-zero (suc a) zero e = refl
differ-zero a (suc b) e = absurd (omega (arith, e))

-- A bit above the others is added.
pub bit_xor_high : (k v : ℕ) → v < 2 ^ k → bit_xor v (2 ^ k) ≡ v + 2 ^ k
bit_xor_high zero v h = let e : v ≡ 0 = omega arith in rw e refl
bit_xor_high (suc k) v h = omega (
  arith,
  pow-suc 2 k,
  bit_xor_step v (2 ^ suc k),
  differ-zero (v % 2) (2 ^ suc k % 2) (omega (arith, pow-suc 2 k)),
  ap (bit_xor (v / 2)) (half k),
  bit_xor_high k (v / 2) (omega (arith, pow-suc 2 k)),
)
  where
    half : (k : ℕ) → 2 ^ suc k / 2 ≡ 2 ^ k
    half k = omega (arith, pow-suc 2 k)

bit_and_14 : (a : ℕ) → bit_and a 14 ≡ 2 * (a / 2 % 8)
bit_and_14 a = omega (arith, bit_and_step a 14, bit_and_seven (a / 2))

bit_and_28 : (a : ℕ) → bit_and a 28 ≡ 4 * (a / 4 % 8)
bit_and_28 a = omega (arith, bit_and_step a 28, bit_and_14 (a / 2))

bit_and_56 : (a : ℕ) → bit_and a 56 ≡ 8 * (a / 8 % 8)
bit_and_56 a = omega (arith, bit_and_step a 56, bit_and_28 (a / 2))

-- The bits of 16, 32 and 64.
pub bit_and_exponent : (a : ℕ) → bit_and a 112 ≡ 16 * (a / 16 % 8)
bit_and_exponent a = omega (arith, bit_and_step a 112, bit_and_56 (a / 2))

bit_and_2 : (a : ℕ) → bit_and a 2 ≡ 2 * (a / 2 % 2)
bit_and_2 a = omega (arith, bit_and_step a 2, bit_and-one (a / 2))

bit_and_4 : (a : ℕ) → bit_and a 4 ≡ 4 * (a / 4 % 2)
bit_and_4 a = omega (arith, bit_and_step a 4, bit_and_2 (a / 2))

bit_and_8 : (a : ℕ) → bit_and a 8 ≡ 8 * (a / 8 % 2)
bit_and_8 a = omega (arith, bit_and_step a 8, bit_and_4 (a / 2))

bit_and_16 : (a : ℕ) → bit_and a 16 ≡ 16 * (a / 16 % 2)
bit_and_16 a = omega (arith, bit_and_step a 16, bit_and_8 (a / 2))

bit_and_32 : (a : ℕ) → bit_and a 32 ≡ 32 * (a / 32 % 2)
bit_and_32 a = omega (arith, bit_and_step a 32, bit_and_16 (a / 2))

bit_and_64 : (a : ℕ) → bit_and a 64 ≡ 64 * (a / 64 % 2)
bit_and_64 a = omega (arith, bit_and_step a 64, bit_and_32 (a / 2))

pub bit_and_sign : (a : ℕ) → bit_and a 128 ≡ 128 * (a / 128 % 2)
bit_and_sign a = omega (arith, bit_and_step a 128, bit_and_64 (a / 2))
