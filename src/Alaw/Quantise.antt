-- ===== src/Alaw/Quantise.antt =====
-- What a sample becomes when it is decoded again.
use neolink.Base.{
  ℕ, ◌+◌, ◌-◌, ◌*◌, ◌/◌, ◌%◌, ◌^◌, ◌≡◌, ◌≤◌, ◌<◌, arith, some, position, leb, bit_and, bit_or,
  if◌then◌else◌, Bool-cases, inl, inr, ◌==◌,
}
use neolink.Base.Words.{u8}
use neolink.Base.Bits.{bit_and_nibble, bit_or_fields}
use neolink.Alaw.{magnitude, segment_ends, shift}

-- The middle of a step, of its segment and the position within it.
abbrev pub expand_in : ℕ → ℕ → ℕ
expand_in segment mantissa =
    if segment == 0
    then mantissa * 16 + 8
    else if segment == 1
    then mantissa * 16 + 0x108
    else (mantissa * 16 + 0x108) * 2 ^ (segment - 1)

unfoldable pub expand : ℕ → ℕ
expand value = expand_in (value / 16) (value % 16)

-- One is the other up to half a step, which is at most a thirty-second part and 8.
abbrev pub IsNear : ℕ → ℕ → Type 0
IsNear d n = (d ≤ n + n / 32 + 8) × (n ≤ d + n / 32 + 8)

pub fields : (k x : ℕ) → k < 8 → bit_or (u8 (k * 16)) (bit_and (u8 x) 0x0f) ≡ k * 16 + x % 16
fields k x h =
    let high : u8 (k * 16) ≡ k * 2 ^ 4 = omega arith in
    let low : u8 x % 16 ≡ x % 16 = omega arith in
    rw (bit_and_nibble (u8 x), low, high, bit_or_fields 4 k (x % 16) (omega arith)) (omega arith)

expand-fields : (k r : ℕ) → r < 16 → expand (k * 16 + r) ≡ expand_in k r
unfolding expand
expand-fields k r h =
    let high : (k * 16 + r) / 16 ≡ k = omega arith in
    let low : (k * 16 + r) % 16 ≡ r = omega arith in rw (high, low)

expand-magnitude :
    (k pcm : ℕ)
    → k < 8
    → position (λ end. leb pcm end) segment_ends ≡ some k
    → expand (magnitude pcm) ≡ expand_in k (pcm / 2 ^ shift k % 16)
unfolding magnitude
expand-magnitude k pcm h e =
    rw (e, fields k (pcm / 2 ^ shift k) h) (expand-fields k _ (omega arith))

-- In each segment, by its bounds.
low-IsNear : (n : ℕ) → n / 8 ≤ 0x1f → IsNear (expand (magnitude (n / 8))) n
low-IsNear n h = rw (expand-magnitude 0 (n / 8) (omega arith) (ground arith)) (omega arith)

second-IsNear : (n : ℕ) → 0x1f < n / 8 → n / 8 ≤ 0x3f → IsNear (expand (magnitude (n / 8))) n
second-IsNear n l h = rw (expand-magnitude 1 (n / 8) (omega arith) (ground arith)) (omega arith)

third-IsNear : (n : ℕ) → 0x3f < n / 8 → n / 8 ≤ 0x7f → IsNear (expand (magnitude (n / 8))) n
third-IsNear n l h = rw (expand-magnitude 2 (n / 8) (omega arith) (ground arith)) (omega arith)

fourth-IsNear : (n : ℕ) → 0x7f < n / 8 → n / 8 ≤ 0xff → IsNear (expand (magnitude (n / 8))) n
fourth-IsNear n l h = rw (expand-magnitude 3 (n / 8) (omega arith) (ground arith)) (omega arith)

fifth-IsNear : (n : ℕ) → 0xff < n / 8 → n / 8 ≤ 0x1ff → IsNear (expand (magnitude (n / 8))) n
fifth-IsNear n l h = rw (expand-magnitude 4 (n / 8) (omega arith) (ground arith)) (omega arith)

sixth-IsNear : (n : ℕ) → 0x1ff < n / 8 → n / 8 ≤ 0x3ff → IsNear (expand (magnitude (n / 8))) n
sixth-IsNear n l h = rw (expand-magnitude 5 (n / 8) (omega arith) (ground arith)) (omega arith)

seventh-IsNear : (n : ℕ) → 0x3ff < n / 8 → n / 8 ≤ 0x7ff → IsNear (expand (magnitude (n / 8))) n
seventh-IsNear n l h = rw (expand-magnitude 6 (n / 8) (omega arith) (ground arith)) (omega arith)

last-IsNear : (n : ℕ) → 0x7ff < n / 8 → n / 8 ≤ 0xfff → IsNear (expand (magnitude (n / 8))) n
last-IsNear n l h = rw (expand-magnitude 7 (n / 8) (omega arith) (ground arith)) (omega arith)

pub magnitude-IsNear : (n : ℕ) → n < 32768 → IsNear (expand (magnitude (n / 8))) n
magnitude-IsNear n u = elim (Bool-cases (leb (n / 8) 0x1f)) [
  | inl h0 ↦ low-IsNear n (ground arith)
  | inr l0 ↦ elim (Bool-cases (leb (n / 8) 0x3f)) [
    | inl h1 ↦ second-IsNear n (ground arith) (ground arith)
    | inr l1 ↦ elim (Bool-cases (leb (n / 8) 0x7f)) [
      | inl h2 ↦ third-IsNear n (ground arith) (ground arith)
      | inr l2 ↦ elim (Bool-cases (leb (n / 8) 0xff)) [
        | inl h3 ↦ fourth-IsNear n (ground arith) (ground arith)
        | inr l3 ↦ elim (Bool-cases (leb (n / 8) 0x1ff)) [
          | inl h4 ↦ fifth-IsNear n (ground arith) (ground arith)
          | inr l4 ↦ elim (Bool-cases (leb (n / 8) 0x3ff)) [
            | inl h5 ↦ sixth-IsNear n (ground arith) (ground arith)
            | inr l5 ↦ elim (Bool-cases (leb (n / 8) 0x7ff)) [
              | inl h6 ↦ seventh-IsNear n (ground arith) (ground arith)
              | inr l6 ↦ last-IsNear n (ground arith) (omega arith)
            ]
          ]
        ]
      ]
    ]
  ]
]
