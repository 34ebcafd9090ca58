-- ===== src/Mpegts/Demux.antt =====
-- A reader of the packets of one PID gets back what `emit_packets` was given.
use neolink.Base.{
  ℕ, zero, suc, ◌+◌, ◌-◌, ◌*◌, ◌/◌, ◌%◌, ◌^◌, ◌==◌, ◌≡◌, ◌≤◌, ◌<◌, refl, sym, ap, subst, ◌∙◌, arith,
  min, bit_and, bit_or, [], ◌∷◌, ◌++◌, length, Option, none, some, Bool, true, false, ◌&&◌, leb,
  if◌then◌else◌, take, drop, get_or, length-append, length-take, length-drop, take-append-drop,
  take-append_length, drop-append_length, append_assoc, if-true, if-false, Bool-cases, inl, inr,
  ==_ne, le→leb,
}
use mathlib.Core.Option
use neolink.Base.Bits.{bit_and_nibble, bit_or_fields}
use neolink.Base.Words.{Bytes, u8}
use neolink.Mpegts.{pusi}
use neolink.Mpegts.Packets.{Chain, chain_len, chain_take}

-- A packet of the PID with the continuity counter that is due.
unfoldable pub is_next : ℕ → ℕ → Bytes → Bool
is_next pid c p =
    get_or p 0 0 == 0x47
    && (get_or p 1 0 % 32 * 256 + get_or p 2 0 == pid && get_or p 3 0 % 16 == c % 16)

-- What follows the header and the adaptation field, if the header says that there is one.
unfoldable pub payload_of : Bytes → Bytes
payload_of p = if get_or p 3 0 / 32 % 2 == 1 then drop (get_or p 4 0) (drop 5 p) else drop 4 p

-- The payloads of packets of 188 bytes, one after the other; `none` if any is malformed.
unfoldable pub demux : ℕ → ℕ → ℕ → Bytes → Option Bytes
demux zero pid c bytes = none
demux (suc fuel) pid c bytes =
    let rest = demux fuel pid (c + 1) (drop 188 bytes) in
    if length bytes == 0
    then some []
    else if leb 188 (length bytes) && is_next pid c (take 188 bytes)
    then Option.map (λ r. payload_of (take 188 bytes) ++ r) rest
    else none

abbrev pub bytes_of : Chain → Bytes
bytes_of c = c.head ++ c.tail

pub demux-append :
    (p rest r : Bytes) (fuel pid c : ℕ)
    → length p ≡ 188
    → is_next pid c p ≡ true
    → demux fuel pid (c + 1) rest ≡ some r
    → demux (suc fuel) pid c (p ++ rest) ≡ some (payload_of p ++ r)
unfolding demux
demux-append p rest r fuel pid c l n e =
    let t : take 188 (p ++ rest) ≡ p =
      subst (λ k. take k (p ++ rest) ≡ p) l (take-append_length p rest) in
    let d : drop 188 (p ++ rest) ≡ rest =
      subst (λ k. drop k (p ++ rest) ≡ rest) l (drop-append_length p rest) in
    let a : length (p ++ rest) ≡ 188 + length rest = omega (arith, length-append p rest) in
    if-false (length (p ++ rest) == 0) _ _ (==_ne (length (p ++ rest)) 0 (λ q. omega arith))
    ∙ if-true (leb 188 (length (p ++ rest)) && is_next pid c (take 188 (p ++ rest))) _ _
        (rw (t, n, le→leb 188 (length (p ++ rest)) (omega arith)) refl)
    ∙ rw (t, d, e) refl

-- The cursor moves bytes, and neither drops nor adds any.
pub record IsMoved (count : ℕ) (c : Chain) (moved : Bytes) (c' : Chain) : Type 0 where
  pub whole : moved ++ bytes_of c' ≡ bytes_of c
  pub count_moved : length moved ≡ count
  pub left : chain_len c' ≡ chain_len c - count

take_all : (xs : Bytes) → take (length xs) xs ≡ xs
take_all [] = refl
take_all (x ∷ xs) = ap (λ t. x ∷ t) (take_all xs)

drop_all : (xs : Bytes) → drop (length xs) xs ≡ []
drop_all [] = refl
drop_all (x ∷ xs) = drop_all xs

module _ (count : ℕ) (c : Chain) where
  unfoldable within_head : Bytes × Chain
  within_head = (take count c.head, record { head = drop count c.head; tail = c.tail })

  unfoldable beyond_head : Bytes × Chain
  beyond_head = (
    c.head ++ take (count - length c.head) c.tail,
    record { head = []; tail = drop (count - length c.head) c.tail },
  )

  chain_take-within_head : count ≤ length c.head → chain_take count c ≡ within_head
  unfolding chain_take within_head
  chain_take-within_head h =
      let e : min count (length c.head) ≡ count = omega arith in
      let z : (count - count == 0) ≡ true = ground arith in rw (e, z) refl

  chain_take-beyond_head :
      length c.head < count → count ≤ chain_len c → chain_take count c ≡ beyond_head
  unfolding chain_take beyond_head chain_len
  chain_take-beyond_head h k =
      let e : min count (length c.head) ≡ length c.head = omega arith in
      let f : min (count - length c.head) (length c.tail) ≡ count - length c.head = omega arith in
      let z : (count - length c.head == 0) ≡ false = ground arith in
      rw (e, f, z, take_all c.head, drop_all c.head) refl

  pub chain_take-IsMoved :
      count ≤ chain_len c → IsMoved count c (chain_take count c).0 (chain_take count c).1
  unfolding chain_len within_head beyond_head
  chain_take-IsMoved h = elim (Bool-cases (leb count (length c.head))) [
    | inl b ↦
        let k : count ≤ length c.head = ground arith in
        rw (chain_take-within_head k) (record {
          whole =
              sym (append_assoc (take count c.head) (drop count c.head) c.tail)
              ∙ ap (λ t. t ++ c.tail) (take-append-drop count c.head);
          count_moved = omega (arith, length-take count c.head);
          left = omega (arith, length-drop count c.head);
        })
    | inr b ↦
        let k : length c.head < count = ground arith in
        let n = count - length c.head in
        rw (chain_take-beyond_head k h) (record {
          whole =
              append_assoc c.head (take n c.tail) (drop n c.tail)
              ∙ ap (λ t. c.head ++ t) (take-append-drop n c.tail);
          count_moved = omega (arith, length-append c.head (take n c.tail), length-take n c.tail);
          left = omega (arith, length-drop n c.tail);
        })
  ]

pub header_byte : (k c : ℕ) → k < 4 → bit_or (u8 (k * 16)) (bit_and c 15) ≡ k * 16 + c % 16
header_byte k c h =
    let e : u8 (k * 16) ≡ k * 2 ^ 4 = omega arith in
    rw (e, bit_and_nibble c) (bit_or_fields 4 k (c % 16) (omega arith))

pub pid_word :
    (start : Bool) (pid : ℕ)
    → pid < 8192
    → (bit_or (if start then pusi else 0) pid % 8192 ≡ pid)
      × (bit_or (if start then pusi else 0) pid < 65536)
pid_word true pid h = ground (arith, bit_or_fields 13 2 pid)
pid_word false pid h = ground (arith, bit_or_fields 13 0 pid)
