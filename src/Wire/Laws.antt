-- ===== src/Wire/Laws.antt =====
-- A word that passes its test.
use neolink.Base.{ℕ, ◌≡◌, ◌++◌, Bool, true}
use neolink.Base.Words.{Bytes, IsU32, le_bytes}
use neolink.Wire.Defs.{Nom, done}

module _ (n : Nom) where
  pub verify_u32 :
      (f : ℕ → Bool) (x : ℕ) (rest : Bytes)
      → IsU32 x
      → f x ≡ true
      → n.verify ℕ n.le_u32 f (le_bytes 4 x ++ rest) ≡ done (rest, x)
  verify_u32 f x rest h e =
      rw (n.verify_done ℕ n.le_u32 f (le_bytes 4 x ++ rest) rest x (n.le_u32_lem x rest h), e)
