-- ===== src/Bc/Header.antt =====
-- The header of a message, written and read back.
use neolink.Base.{ℕ, ◌≡◌, refl, arith, Bool, true, false, Option, none, some}
use neolink.Base.Words.{IsByte, IsU16, IsU32}
use neolink.Wire.{Nom, Cookie}
use neolink.Wire.Reads.{
  Reads, bind-Reads, returns, same_bytes, u8-Reads, u16-Reads, u32-Reads, verify-Reads, cond-Reads,
  skip-Reads,
}
use neolink.Bc.Deps.{BcDeps}
use neolink.Bc.Model.{BcMeta, magic_header, has_payload_offset, from_meta}
use neolink.Bc.Ser.{bc_header, opt}
use neolink.Bc.De.{is_magic}
use neolink.Bc.De

abbrev pub FitsMeta : BcMeta → Type 0
FitsMeta m =
    IsU32 m.msg_id
    × IsByte m.channel_id
    × IsByte m.stream_type
    × IsU16 m.response_code
    × IsU16 m.msg_num
    × IsU16 m.class

-- There is an offset if and only if the class has one.
abbrev pub FitsOffset : Bool → Option ℕ → Type 0
FitsOffset has none = has ≡ false
FitsOffset has (some offset) = (has ≡ true) × IsU32 offset

module _ (deps : BcDeps) (n : Nom) (c : Cookie) where
  offset-Reads :
      (has : Bool) (o : Option ℕ)
      → FitsOffset has o
      → Reads (n.cond ℕ has n.le_u32) (opt deps c o c.le_u32) o
  offset-Reads has none h = rw h (skip-Reads n n.le_u32)
  offset-Reads has (some offset) (h, k) = rw (h, c.le_u32_lem) (cond-Reads n (u32-Reads n offset k))

  pub header-Reads :
      (m : BcMeta) (len : ℕ) (o : Option ℕ)
      → FitsMeta m
      → IsU32 len
      → FitsOffset (has_payload_offset m.class) o
      → Reads (De.bc_header deps n) (bc_header deps c (from_meta m len o)) (from_meta m len o)
  unfolding bc_header De.bc_header from_meta
  header-Reads m len o (i, ch, st, rc, num, cl) l h =
      same_bytes (simp (c.le_u8_lem, c.le_u16_lem, c.le_u32_lem, c.tuple_cons, c.tuple_nil)) (
        bind-Reads _ (verify-Reads n is_magic (u32-Reads n magic_header (omega arith)) refl) (
          bind-Reads _ (u32-Reads n m.msg_id i) (
            bind-Reads _ (u32-Reads n len l) (
              bind-Reads _ (u8-Reads n m.channel_id ch) (
                bind-Reads _ (u8-Reads n m.stream_type st) (
                  bind-Reads _ (u16-Reads n m.msg_num num) (
                    bind-Reads _ (u16-Reads n m.response_code rc) (
                      bind-Reads _ (u16-Reads n m.class cl)
                        (bind-Reads _ (offset-Reads _ o h) (returns _))))))))))
