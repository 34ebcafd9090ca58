-- ===== src/Wire/Defs.antt =====
-- The interface: results, parsers with their laws, printers with theirs.
use neolink.Base.{
  ℕ, ◌<◌, ◌≡◌, List, [], ◌∷◌, ◌++◌, length, Bool, true, false, Option, none, some, if◌then◌else◌,
}
use neolink.Base.Words.{Bytes, IsByte, IsU16, IsU32, le_bytes}

-- nom's `IResult`: the input left over with the value, `Err::Incomplete`, or `Err::Error`.
-- `panic` is no value of it: the code aborts there.
pub data IResult (A : Type 0) : Type 0 where
  done : Bytes × A → IResult A
  incomplete : IResult A
  error : IResult A
  panic : IResult A

-- `?`
infixl 5 ◌>>=◌
abbrev pub ◌>>=◌ : {A B : Type 0} → IResult A → (Bytes × A → IResult B) → IResult B
done p >>= f = f p
incomplete >>= f = incomplete
error >>= f = error
panic >>= f = panic

pub record Nom : Type 1 where
  pub le_u8 : Bytes → IResult ℕ
  pub le_u16 : Bytes → IResult ℕ
  pub le_u32 : Bytes → IResult ℕ
  pub le_i32 : Bytes → IResult ℕ  -- the bit pattern
  pub take : ℕ → Bytes → IResult Bytes
  pub verify : (A : Type 0) → (Bytes → IResult A) → (A → Bool) → Bytes → IResult A
  pub map_res : (A B : Type 0) → (Bytes → IResult A) → (A → Option B) → Bytes → IResult B
  pub cond : (A : Type 0) → Bool → (Bytes → IResult A) → Bytes → IResult (Option A)
  pub consumed : (A : Type 0) → (Bytes → IResult A) → Bytes → IResult (Bytes × A)
  pub le_u8_lem : (x : ℕ) (rest : Bytes) → IsByte x → le_u8 (le_bytes 1 x ++ rest) ≡ done (rest, x)
  pub le_u16_lem : (x : ℕ) (rest : Bytes) → IsU16 x → le_u16 (le_bytes 2 x ++ rest) ≡ done (rest, x)
  pub le_u32_lem : (x : ℕ) (rest : Bytes) → IsU32 x → le_u32 (le_bytes 4 x ++ rest) ≡ done (rest, x)
  pub le_i32_lem : (x : ℕ) (rest : Bytes) → IsU32 x → le_i32 (le_bytes 4 x ++ rest) ≡ done (rest, x)
  pub take_lem :
      (front rest : Bytes) (n : ℕ) → length front ≡ n → take n (front ++ rest) ≡ done (rest, front)
  pub le_u8_short : (buf : Bytes) → length buf < 1 → le_u8 buf ≡ incomplete
  pub le_u16_short : (buf : Bytes) → length buf < 2 → le_u16 buf ≡ incomplete
  pub le_u32_short : (buf : Bytes) → length buf < 4 → le_u32 buf ≡ incomplete
  pub le_i32_short : (buf : Bytes) → length buf < 4 → le_i32 buf ≡ incomplete
  pub take_short : (buf : Bytes) (n : ℕ) → length buf < n → take n buf ≡ incomplete
  pub verify_done :
      (A : Type 0) (p : Bytes → IResult A) (f : A → Bool) (buf rest : Bytes) (x : A)
      → p buf ≡ done (rest, x)
      → verify A p f buf ≡ (if f x then done (rest, x) else error)
  pub verify_incomplete :
      (A : Type 0) (p : Bytes → IResult A) (f : A → Bool) (buf : Bytes)
      → p buf ≡ incomplete
      → verify A p f buf ≡ incomplete
  pub map_res_some :
      (A B : Type 0) (p : Bytes → IResult A) (f : A → Option B) (buf rest : Bytes) (x : A) (y : B)
      → p buf ≡ done (rest, x)
      → f x ≡ some y
      → map_res A B p f buf ≡ done (rest, y)
  pub map_res_none :
      (A B : Type 0) (p : Bytes → IResult A) (f : A → Option B) (buf rest : Bytes) (x : A)
      → p buf ≡ done (rest, x)
      → f x ≡ none
      → map_res A B p f buf ≡ error
  pub map_res_incomplete :
      (A B : Type 0) (p : Bytes → IResult A) (f : A → Option B) (buf : Bytes)
      → p buf ≡ incomplete
      → map_res A B p f buf ≡ incomplete
  pub cond_true :
      (A : Type 0) (p : Bytes → IResult A) (buf rest : Bytes) (x : A)
      → p buf ≡ done (rest, x)
      → cond A true p buf ≡ done (rest, some x)
  pub cond_incomplete :
      (A : Type 0) (p : Bytes → IResult A) (buf : Bytes)
      → p buf ≡ incomplete
      → cond A true p buf ≡ incomplete
  pub cond_false :
      (A : Type 0) (p : Bytes → IResult A) (buf : Bytes) → cond A false p buf ≡ done (buf, none)
  pub consumed_done :
      (A : Type 0) (p : Bytes → IResult A) (front rest : Bytes) (x : A)
      → p (front ++ rest) ≡ done (rest, x)
      → consumed A p (front ++ rest) ≡ done (rest, (front, x))
  pub consumed_incomplete :
      (A : Type 0) (p : Bytes → IResult A) (buf : Bytes)
      → p buf ≡ incomplete
      → consumed A p buf ≡ incomplete
  pub consumed_error :
      (A : Type 0) (p : Bytes → IResult A) (buf : Bytes) → p buf ≡ error → consumed A p buf ≡ error
  pub consumed_panic :
      (A : Type 0) (p : Bytes → IResult A) (buf : Bytes) → p buf ≡ panic → consumed A p buf ≡ panic

-- A text is its bytes. A serializer is the bytes that it writes: `gen` of it appends them to the buffer.
pub record Cookie : Type 0 where
  pub le_u8 : ℕ → Bytes
  pub le_u16 : ℕ → Bytes
  pub le_u32 : ℕ → Bytes
  pub le_i32 : ℕ → Bytes
  pub slice : Bytes → Bytes
  pub string : Bytes → Bytes
  pub tuple : List Bytes → Bytes
  pub le_u8_lem : (x : ℕ) → le_u8 x ≡ le_bytes 1 x
  pub le_u16_lem : (x : ℕ) → le_u16 x ≡ le_bytes 2 x
  pub le_u32_lem : (x : ℕ) → le_u32 x ≡ le_bytes 4 x
  pub le_i32_lem : (x : ℕ) → le_i32 x ≡ le_bytes 4 x
  pub slice_lem : (b : Bytes) → slice b ≡ b
  pub string_lem : (b : Bytes) → string b ≡ b
  pub tuple_nil : tuple [] ≡ []
  pub tuple_cons : (b : Bytes) (bs : List Bytes) → tuple (b ∷ bs) ≡ b ++ tuple bs
