-- ===== src/Base/Utf8.antt =====
-- `std::str::from_utf8`: the bytes of a text, if they are well-formed UTF-8.
use Prim.Native.Nat.{ℕ, zero, suc}
use mathlib.Core.Bool.{Bool, false, ◌&&◌}
use mathlib.Core.Option.{Option, none, some}
use mathlib.Core.List.{[], ◌∷◌}
use neolink.Base.Tests.{ltb, leb, ◌==◌, if◌then◌else◌}
use neolink.Base.Words.{Bytes}

-- How many continuation bytes are due, and the range of the next one.
record Pending : Type 0 where
  count : ℕ
  least : ℕ
  most : ℕ

abbrev continued : ℕ → ℕ → ℕ → Option Pending
continued count least most = some (record { count = count; least = least; most = most })

-- The first byte of a sequence: none overlong, no surrogate, none above U+10FFFF.
abbrev first_byte : ℕ → Option Pending
first_byte b =
    if ltb b 0x80
    then continued 0 0x80 0xbf
    else if ltb b 0xc2
    then none
    else if leb b 0xdf
    then continued 1 0x80 0xbf
    else if b == 0xe0
    then continued 2 0xa0 0xbf
    else if b == 0xed
    then continued 2 0x80 0x9f
    else if leb b 0xef
    then continued 2 0x80 0xbf
    else if b == 0xf0
    then continued 3 0x90 0xbf
    else if leb b 0xf3
    then continued 3 0x80 0xbf
    else if b == 0xf4
    then continued 3 0x80 0x8f
    else none

abbrev next_byte : ℕ → ℕ → ℕ → ℕ → Option Pending
next_byte zero least most b = first_byte b
next_byte (suc n) least most b = if leb least b && leb b most then continued n 0x80 0xbf else none

is_utf8_from : Bytes → Option Pending → Bool
is_utf8_from bytes none = false
is_utf8_from [] (some s) = s.count == 0
is_utf8_from (b ∷ bs) (some s) = is_utf8_from bs (next_byte s.count s.least s.most b)

unfoldable pub from_utf8 : Bytes → Option Bytes
unfolding is_utf8_from
from_utf8 bytes = if is_utf8_from bytes (continued 0 0x80 0xbf) then some bytes else none
