-- ===== src/Mpegts/Packets.antt =====
-- `emit_packets`, `write_pcr`, `write_timestamp` and the cursor `Chain` of src/mpegts/mod.rs.
use neolink.Base.{
  ℕ, zero, suc, ◌+◌, ◌-◌, ◌*◌, ◌/◌, ◌==◌, min, bit_and, bit_or, [], ◌∷◌, ◌++◌, length, Option, none,
  some, Bool, true, false, ltb, if◌then◌else◌, replicate, take, drop,
}
use neolink.Base.Words.{Bytes, u8}
use neolink.Mpegts.{Track, be_u16, sync_byte, pusi, ts_payload_size}

pub record Chain : Type 0 where
  pub head : Bytes
  pub tail : Bytes

unfoldable pub chain_len : Chain → ℕ
chain_len c = length c.head + length c.tail

-- The bytes moved, and the cursor after them.
unfoldable pub chain_take : ℕ → Chain → Bytes × Chain
chain_take count c =
    let n = min count (length c.head) in
    let m = min (count - n) (length c.tail) in
    if count - n == 0
    then (take n c.head, record { head = drop n c.head; tail = c.tail })
    else (take n c.head ++ take m c.tail, record { head = drop n c.head; tail = drop m c.tail })

unfoldable pub write_timestamp : ℕ → ℕ → Bytes
write_timestamp prefix ts =
    bit_or (bit_or (u8 (prefix * 16)) (u8 (bit_and (u8 (ts / 1073741824)) 7 * 2))) 1
    ∷ u8 (ts / 4194304)
    ∷ bit_or (u8 (bit_and (u8 (ts / 32768)) 127 * 2)) 1
    ∷ u8 (ts / 128)
    ∷ bit_or (u8 (bit_and (u8 ts) 127 * 2)) 1
    ∷ []

unfoldable pub write_pcr : ℕ → Bytes
write_pcr base =
    u8 (base / 33554432)
    ∷ u8 (base / 131072)
    ∷ u8 (base / 512)
    ∷ u8 (base / 2)
    ∷ bit_or (u8 (bit_and (u8 base) 1 * 128)) 126
    ∷ 0
    ∷ []

-- `flags`, and the bytes of the PCR if there is one.
unfoldable pub flag_bits : Option ℕ → Bool → ℕ
flag_bits none random_access = if random_access then 64 else 0
flag_bits (some pcr) random_access = bit_or (if random_access then 64 else 0) 16

unfoldable pub pcr_bytes : Option ℕ → Bytes
pcr_bytes none = []
pcr_bytes (some pcr) = write_pcr pcr

-- The adaptation field, of that many bytes with its length byte.
unfoldable pub adaptation : ℕ → Option ℕ → Bool → Bytes
adaptation field pcr random_access =
    let used = 2 + length (pcr_bytes pcr) in
    if field == 1
    then 0 ∷ []
    else if ltb 1 field
    then u8 (field - 1) ∷ flag_bits pcr random_access ∷ pcr_bytes pcr
      ++ replicate (field - used) 0xff
    else []

-- How much of the payload is kept for the adaptation field of the first packet.
unfoldable pub reserved : Option ℕ → Bool → ℕ
reserved none random_access = if random_access then 2 else 0
reserved (some pcr) random_access = 2 + 6

-- The four bytes before the adaptation field.
unfoldable pub packet_header : Track → Bool → ℕ → Bytes
packet_header t start field =
    sync_byte ∷ be_u16 (bit_or (if start then pusi else 0) t.pid)
    ++ (bit_or (u8 ((if ltb 0 field then 3 else 1) * 16)) (bit_and t.continuity 15) ∷ [])

-- The loop, on fuel.
unfoldable pub emit_from : ℕ → Track → Chain → Bool → Option ℕ → Bool → Track × Bytes
emit_from zero t chain start pcr random_access = (t, [])
emit_from (suc fuel) t chain start pcr random_access =
    let count = min (chain_len chain) (ts_payload_size - reserved pcr random_access) in
    let field = ts_payload_size - count in
    let moved = chain_take count chain in
    let rest =
      emit_from fuel (record t { continuity = u8 (t.continuity + 1) }) moved.1 false none false in
    if chain_len chain == 0 then (t, []) else (
      rest.0,
      packet_header t start field ++ adaptation field pcr random_access ++ moved.0 ++ rest.1,
    )

unfoldable pub emit_packets : Track → Chain → Option ℕ → Bool → Track × Bytes
emit_packets t chain pcr random_access = emit_from (chain_len chain) t chain true pcr random_access
