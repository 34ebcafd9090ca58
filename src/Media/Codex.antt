-- ===== src/Media/Codex.antt =====
-- crates/core/src/bcmedia/codex.rs: the codec of the media packets. Its log lines are left out.
use neolink.Base.{ℕ, zero, suc, ◌+◌, [], ◌++◌, length, Bool, ◌==◌, if◌then◌else◌}
use neolink.Base.Words.{Bytes}
use neolink.Wire.{Nom, Cookie, IResult, done, incomplete, error, panic}
use neolink.Media.Model.{BcMedia}
use neolink.Media.Ser.{serialize}
use neolink.Media.De.{deserialize}

pub record BcMediaCodex : Type 0 where
  pub strict : Bool
  pub amount_skipped : ℕ

unfoldable pub new : Bool → BcMediaCodex
new strict = record { strict = strict; amount_skipped = 0 }

-- `Result<Option<BcMedia>>`, and the abort of a failed assertion.
pub data Decoded : Type 0 where
  packet : BcMedia → Decoded
  no_packet : Decoded
  failed : Decoded
  aborted : Decoded

unfoldable pub encode : Cookie → BcMedia → Bytes → Bytes
encode c item dst = dst ++ serialize c item

module _ (n : Nom) where
  -- The arms of the `match`; `again` is the loop for what is left of the rounds.
  abbrev pub of_result :
      (BcMediaCodex → Bytes → Decoded × BcMediaCodex × Bytes)
      → BcMediaCodex
      → Bytes
      → IResult BcMedia
      → Decoded × BcMediaCodex × Bytes
  of_result again codex src (done (rest, bc)) =
      (packet bc, record codex { amount_skipped = 0 }, rest)
  of_result again codex src incomplete = (no_packet, record codex { amount_skipped = 0 }, src)
  of_result again codex src error =
      if codex.strict
      then (failed, codex, src)
      else if length src == 0
      then (no_packet, codex, src)
      else again (record codex { amount_skipped = codex.amount_skipped + length src }) []
  of_result again codex src panic = (aborted, codex, src)

  -- The loop, on fuel.
  unfoldable pub decode_from : ℕ → BcMediaCodex → Bytes → Decoded × BcMediaCodex × Bytes
  decode_from zero codex src = (no_packet, codex, src)
  decode_from (suc fuel) codex src = of_result (decode_from fuel) codex src (deserialize n src)

  -- A buffer that is dropped is empty the second time round.
  unfoldable pub decode : BcMediaCodex → Bytes → Decoded × BcMediaCodex × Bytes
  decode codex src = decode_from 2 codex src

  unfoldable pub decode_eof : BcMediaCodex → Bytes → Decoded × BcMediaCodex × Bytes
  decode_eof codex buf = decode codex buf
