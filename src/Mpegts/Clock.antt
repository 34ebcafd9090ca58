-- ===== src/Mpegts/Clock.antt =====
-- The 33-bit timestamps of a PES header, and the PCR, read back.
use neolink.Base.{ℕ, ◌+◌, ◌*◌, ◌/◌, ◌%◌, ◌^◌, ◌≡◌, ◌<◌, arith, get_or, bit_and, bit_or}
use neolink.Base.Bits.{bit_and-one, bit_and_seven, bit_and_septet, bit_or_fields}
use neolink.Base.Words.{Bytes, u8}
use neolink.Mpegts.Packets.{write_timestamp, write_pcr}

-- The five bytes of a PTS hold 3, 15 and 15 bits, each with a marker bit below.
unfoldable pub read_timestamp : Bytes → ℕ
read_timestamp b =
    get_or b 0 0 / 2 % 8 * 1073741824
    + (get_or b 1 0 * 128 + get_or b 2 0 / 2) * 32768
    + (get_or b 3 0 * 128 + get_or b 4 0 / 2)

-- 33 bits of the 90 kHz base stand before the reserved bits.
unfoldable read_pcr : Bytes → ℕ
read_pcr b =
    (get_or b 0 0 * 16777216 + get_or b 1 0 * 65536 + get_or b 2 0 * 256 + get_or b 3 0) * 2
    + get_or b 4 0 / 128

seven_bits : (x : ℕ) → bit_or (u8 (bit_and (u8 x) 127 * 2)) 1 ≡ x % 128 * 2 + 1
seven_bits x =
    let e : u8 (bit_and (u8 x) 127 * 2) ≡ x % 128 * 2 ^ 1 = omega (arith, bit_and_septet (u8 x)) in
    rw e (bit_or_fields 1 (x % 128) 1 (omega arith))

tagged_bits :
    (prefix x : ℕ)
    → prefix < 16
    → bit_or (bit_or (u8 (prefix * 16)) (u8 (bit_and (u8 x) 7 * 2))) 1 ≡ prefix * 16 + x % 8 * 2 + 1
tagged_bits prefix x h =
    let e : u8 (prefix * 16) ≡ prefix * 2 ^ 4 = omega arith in
    let f : u8 (bit_and (u8 x) 7 * 2) ≡ x % 8 * 2 = omega (arith, bit_and_seven (u8 x)) in
    let g : prefix * 2 ^ 4 + x % 8 * 2 ≡ (prefix * 8 + x % 8) * 2 ^ 1 = omega arith in
    rw
      (
        e,
        f,
        bit_or_fields 4 prefix (x % 8 * 2) (omega arith),
        g,
        bit_or_fields 1 (prefix * 8 + x % 8) 1 (omega arith),
      )
      (omega arith)

-- A 33-bit timestamp is read back from its five bytes, whatever the tag in front.
pub read_timestamp-write_timestamp :
    (prefix ts : ℕ)
    → prefix < 16
    → ts < 8589934592
    → read_timestamp (write_timestamp prefix ts) ≡ ts
unfolding read_timestamp write_timestamp
read_timestamp-write_timestamp prefix ts h l =
    rw (tagged_bits prefix (ts / 1073741824) h, seven_bits (ts / 32768), seven_bits ts)
      (omega arith)

-- A 33-bit clock is read back from the six bytes of its PCR.
read_pcr-write_pcr : (base : ℕ) → base < 8589934592 → read_pcr (write_pcr base) ≡ base
unfolding read_pcr write_pcr
read_pcr-write_pcr base l =
    let e : u8 (bit_and (u8 base) 1 * 128) ≡ base % 2 * 2 ^ 7 =
      omega (arith, bit_and-one (u8 base)) in
    rw (e, bit_or_fields 7 (base % 2) 126 (omega arith)) (omega arith)
