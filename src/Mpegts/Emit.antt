-- ===== src/Mpegts/Emit.antt =====
-- Each packet is whole and due, so that the reader gets the frame back.
use neolink.Base.{
  ℕ, zero, suc, ◌+◌, ◌-◌, ◌*◌, ◌/◌, ◌%◌, ◌==◌, ◌≡◌, ◌≤◌, ◌<◌, ◌≢◌, refl, sym, ap, ◌∙◌, arith, min,
  bit_and, bit_or, [], ◌∷◌, ◌++◌, length, Option, none, some, Bool, true, false, ltb, if◌then◌else◌,
  replicate, length-append, length-replicate, drop-append_length, if-true, if-false, Bool-cases,
  inl, inr, ==_self,
}
use neolink.Base.Words.{Bytes, u8}
use neolink.Mpegts.{Track, be_u16, pusi}
use neolink.Mpegts.Packets.{
  Chain, chain_len, chain_take, pcr_bytes, flag_bits, adaptation, reserved, packet_header,
  emit_from, emit_packets, write_pcr,
}
use neolink.Mpegts.Demux.{
  is_next, payload_of, demux, bytes_of, demux-append, chain_take-IsMoved, header_byte, pid_word,
}

-- An adaptation field of that many bytes, which says so in its first byte.
record HasSize (field : ℕ) (bytes : Bytes) : Type 0 where
  body : Bytes
  shape : bytes ≡ (field - 1) ∷ body
  size : length body ≡ field - 1

adaptation-HasSize :
    (field : ℕ) (pcr : Option ℕ) (random_access : Bool)
    → 0 < field
    → field ≤ 184
    → (1 < field → 2 + length (pcr_bytes pcr) ≤ field)
    → HasSize field (adaptation field pcr random_access)
unfolding adaptation
adaptation-HasSize field pcr ra p h room = elim (Bool-cases (field == 1)) [
  | inl o ↦
      let e : field ≡ 1 = ground arith in
      record { body = []; shape = rw e refl; size = omega (arith, e) }
  | inr o ↦
      let g : 1 < field = ground arith in
      let u : u8 (field - 1) ≡ field - 1 = omega arith in
      let used = 2 + length (pcr_bytes pcr) in
      let r : used ≤ field = room g in
      record {
        body = flag_bits pcr ra ∷ pcr_bytes pcr ++ replicate (field - used) 0xff;
        shape = if-false (field == 1) _ _ o ∙ if-true (ltb 1 field) _ _ (ground arith) ∙ rw u refl;
        size = omega (
          arith,
          length-append (pcr_bytes pcr) (replicate (field - used) 0xff),
          length-replicate {A = ℕ} (field - used) 0xff,
          r,
        );
      }
]

pub is_next-header :
    (w b pid c : ℕ) (rest : Bytes)
    → w < 65536
    → w % 8192 ≡ pid
    → b % 16 ≡ c % 16
    → is_next pid c (0x47 ∷ u8 (w / 256) ∷ u8 w ∷ b ∷ rest) ≡ true
unfolding is_next
is_next-header w b pid c rest l e f =
    let g : u8 (w / 256) % 32 * 256 + u8 w ≡ pid = omega (arith, e) in
    rw (g, f, ==_self pid, ==_self (c % 16)) refl

-- A packet as the reader sees it.
pub record IsReadable (pid c : ℕ) (payload packet : Bytes) : Type 0 where
  pub size : length packet ≡ 188
  pub due : is_next pid c packet ≡ true
  pub carries : payload_of packet ≡ payload

module _ (w b pid c : ℕ) (payload : Bytes) (l : w < 65536) (e : w % 8192 ≡ pid)
    (f : b % 16 ≡ c % 16) where
  plain_packet-IsReadable :
      b / 32 % 2 ≡ 0
      → length payload ≡ 184
      → IsReadable pid c payload (0x47 ∷ u8 (w / 256) ∷ u8 w ∷ b ∷ payload)
  unfolding payload_of
  plain_packet-IsReadable g s = record {
    size = omega (arith, s);
    due = is_next-header w b pid c payload l e f;
    carries = rw g refl;
  }

  adapted_packet-IsReadable :
      (field : ℕ) (adapted : Bytes)
      → b / 32 % 2 ≡ 1
      → 0 < field
      → field + length payload ≡ 184
      → HasSize field adapted
      → IsReadable pid c payload (0x47 ∷ u8 (w / 256) ∷ u8 w ∷ b ∷ (adapted ++ payload))
  unfolding payload_of
  adapted_packet-IsReadable field adapted g p s h = rw h.shape (record {
    size = omega (arith, length-append h.body payload, h.size, s);
    due = is_next-header w b pid c _ l e f;
    carries = rw (g, sym h.size) (drop-append_length h.body payload);
  })

pub packet-IsReadable :
    (t : Track) (start : Bool) (field c : ℕ) (pcr : Option ℕ) (ra : Bool) (payload : Bytes)
    → t.pid < 8192
    → t.continuity % 16 ≡ c % 16
    → field + length payload ≡ 184
    → (1 < field → 2 + length (pcr_bytes pcr) ≤ field)
    → IsReadable t.pid c payload (packet_header t start field ++ adaptation field pcr ra ++ payload)
unfolding packet_header be_u16 adaptation
packet-IsReadable t start zero c pcr ra payload p d s room =
    let (e, l) = pid_word start t.pid p in
    let b = header_byte 1 t.continuity (omega arith) in
    plain_packet-IsReadable (bit_or (if start then pusi else 0) t.pid) _ t.pid c payload l e
      (omega (arith, b, d)) (omega (arith, b)) (omega (arith, s))
packet-IsReadable t start (suc field) c pcr ra payload p d s room =
    let (e, l) = pid_word start t.pid p in
    let h = adaptation-HasSize (suc field) pcr ra (omega arith) (omega (arith, s)) room in
    let g : ltb 0 (suc field) ≡ true = ground arith in
    let b : bit_or (u8 ((if ltb 0 (suc field) then 3 else 1) * 16)) (bit_and t.continuity 15)
        ≡ 48 + t.continuity % 16 =
      rw g (header_byte 3 t.continuity (omega arith)) in
    adapted_packet-IsReadable (bit_or (if start then pusi else 0) t.pid) _ t.pid c payload l e
      (omega (arith, b, d)) (suc field) _ (omega (arith, b)) (omega arith) s h

nothing_left : (c : Chain) → chain_len c ≡ 0 → [] ≡ bytes_of c
unfolding chain_len
nothing_left c h = no_bytes (bytes_of c) (omega (arith, h, length-append c.head c.tail))
  where
    no_bytes : (bs : Bytes) → length bs ≡ 0 → [] ≡ bs
    no_bytes [] h = refl
    no_bytes (b ∷ bs) h = absurd (omega arith)

pub room :
    (pcr : Option ℕ) (ra : Bool) (field : ℕ)
    → reserved pcr ra ≤ field
    → 1 < field
    → 2 + length (pcr_bytes pcr) ≤ field
unfolding reserved pcr_bytes write_pcr
room none ra field h k = omega arith
room (some pcr) ra field h k = omega arith

pub reserved-le : (pcr : Option ℕ) (ra : Bool) → reserved pcr ra ≤ 8
unfolding reserved
reserved-le none true = omega arith
reserved-le none false = omega arith
reserved-le (some pcr) ra = omega arith

pub demux_nothing : (fuel pid c : ℕ) → demux (suc fuel) pid c [] ≡ some []
unfolding demux
demux_nothing fuel pid c = refl

module _ (fuel : ℕ) (t : Track) (chain : Chain) (start : Bool) (pcr : Option ℕ) (ra : Bool) where
  unfoldable pub count : ℕ
  count = min (chain_len chain) (184 - reserved pcr ra)

  unfoldable pub next_track : Track
  next_track = record t { continuity = u8 (t.continuity + 1) }

  unfoldable pub moved : Bytes × Chain
  moved = chain_take count chain

  unfoldable pub packet : Bytes
  packet = packet_header t start (184 - count) ++ adaptation (184 - count) pcr ra ++ moved.0

  unfoldable pub after : Bytes
  after = (emit_from fuel next_track moved.1 false none false).1

  emit_from_done :
      (chain_len chain == 0) ≡ true → (emit_from (suc fuel) t chain start pcr ra).1 ≡ []
  unfolding emit_from
  emit_from_done z = ap (λ (r : Track × Bytes). r.1) (if-true (chain_len chain == 0) _ _ z)

  emit_from_more :
      (chain_len chain == 0) ≡ false
      → (emit_from (suc fuel) t chain start pcr ra).1 ≡ packet ++ after
  unfolding emit_from packet after moved count next_track
  emit_from_more z = ap (λ (r : Track × Bytes). r.1) (if-false (chain_len chain == 0) _ _ z)

emit_nothing :
    (c : ℕ) (t : Track) (chain : Chain) (start : Bool) (pcr : Option ℕ) (ra : Bool)
    → demux 1 t.pid c (emit_from 0 t chain start pcr ra).1 ≡ some []
unfolding emit_from
emit_nothing c t chain start pcr ra = demux_nothing 0 t.pid c

demux-emit_from :
    (fuel c : ℕ) (t : Track) (chain : Chain) (start : Bool) (pcr : Option ℕ) (ra : Bool)
    → t.pid < 8192
    → t.continuity % 16 ≡ c % 16
    → chain_len chain ≤ fuel
    → demux (suc fuel) t.pid c (emit_from fuel t chain start pcr ra).1 ≡ some (bytes_of chain)
unfolding count next_track moved packet after
demux-emit_from zero c t chain start pcr ra p d h =
    emit_nothing c t chain start pcr ra ∙ ap some (nothing_left chain (omega arith))
demux-emit_from (suc fuel) c t chain start pcr ra p d h = elim (Bool-cases (chain_len chain == 0)) [
  | inl z ↦
      ap (demux (suc (suc fuel)) t.pid c) (emit_from_done fuel t chain start pcr ra z)
      ∙ demux_nothing (suc fuel) t.pid c
      ∙ ap some (nothing_left chain (ground arith))
  | inr z ↦
      let n : chain_len chain ≢ 0 = ground arith in
      let le : reserved pcr ra ≤ 8 = reserved-le pcr ra in
      let taken = count fuel t chain start pcr ra in
      let m = chain_take-IsMoved taken chain (omega arith) in
      let k =
        packet-IsReadable t start (184 - taken) c pcr ra (chain_take taken chain).0 p d
          (omega (arith, m.count_moved)) (room pcr ra (184 - taken) (omega arith)) in
      let ih =
        demux-emit_from fuel (c + 1) (next_track fuel t chain start pcr ra)
          (chain_take taken chain).1 false none false p (omega (arith, d))
          (omega (arith, m.left, n, le)) in
      ap (demux (suc (suc fuel)) t.pid c) (emit_from_more fuel t chain start pcr ra z)
      ∙ demux-append (packet fuel t chain start pcr ra) (after fuel t chain start pcr ra) _
          (suc fuel) t.pid c k.size k.due ih
      ∙ ap some (ap (λ b. b ++ bytes_of (chain_take taken chain).1) k.carries ∙ m.whole)
]

-- A reader of the packets of the track's PID, which checks of each that it has 188 bytes, the
-- sync byte, the PID and the continuity counter that follows the one before, and leaves out what
-- the header calls an adaptation field, gets exactly the bytes of the chain: of the PES header
-- and the payload.
pub demux-emit_packets :
    (t : Track) (chain : Chain) (pcr : Option ℕ) (random_access : Bool)
    → t.pid < 8192
    → demux (suc (chain_len chain)) t.pid t.continuity (emit_packets t chain pcr random_access).1
      ≡ some (chain.head ++ chain.tail)
unfolding emit_packets
demux-emit_packets t chain pcr ra p =
    demux-emit_from (chain_len chain) t.continuity t chain true pcr ra p refl (omega arith)
