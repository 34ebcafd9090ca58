-- ===== src/Wire/Instance.antt =====
-- Functions that meet the laws of the interface, on which the wire formats can be run.
use neolink.Base.{
  ℕ, zero, suc, ◌-◌, ◌<◌, ◌≡◌, refl, List, [], ◌∷◌, ◌++◌, length, Bool, true, false, Option, none,
  some, if◌then◌else◌, ltb, lt→ltb, le→ltb_false, take, drop, take-append_length,
  drop-append_length, arith, length-append, ◌/◌, ◌^◌,
}
use neolink.Base.Words.{Bytes, le_bytes, of_le_bytes, length-le_bytes}
use native.Mathlib.Nat.{pow-suc}
use neolink.Wire.Defs.{IResult, done, incomplete, error, ◌>>=◌, Nom, Cookie}

unfoldable pub take_bytes : ℕ → Bytes → IResult Bytes
take_bytes n buf = if ltb (length buf) n then incomplete else done (drop n buf, take n buf)

unfoldable pub le_uint : ℕ → Bytes → IResult ℕ
unfolding take_bytes
le_uint k buf = take_bytes k buf >>= λ p. done (p.0, of_le_bytes p.1)

pub take_bytes_lem :
    (front rest : Bytes) (n : ℕ)
    → length front ≡ n
    → take_bytes n (front ++ rest) ≡ done (rest, front)
unfolding take_bytes
take_bytes_lem front rest n e = rw (
  ← e,
  le→ltb_false (length (front ++ rest)) (length front) (omega (arith, length-append front rest)),
  take-append_length front rest,
  drop-append_length front rest,
)

pub take_bytes_short : (buf : Bytes) (n : ℕ) → length buf < n → take_bytes n buf ≡ incomplete
unfolding take_bytes
take_bytes_short buf n h = rw (lt→ltb _ _ h)

of_le_bytes_lem : (k x : ℕ) → x < 256 ^ k → of_le_bytes (le_bytes k x) ≡ x
unfolding le_bytes
of_le_bytes_lem zero x h = omega arith
of_le_bytes_lem (suc k) x h =
    omega (arith, of_le_bytes_lem k (x / 256) (omega (arith, pow-suc 256 k)))

pub le_uint_lem :
    (k x : ℕ) (rest : Bytes) → x < 256 ^ k → le_uint k (le_bytes k x ++ rest) ≡ done (rest, x)
unfolding le_uint
le_uint_lem k x rest h =
    rw (take_bytes_lem (le_bytes k x) rest k (length-le_bytes k x), of_le_bytes_lem k x h)

pub le_uint_short : (k : ℕ) (buf : Bytes) → length buf < k → le_uint k buf ≡ incomplete
unfolding le_uint
le_uint_short k buf h = rw (take_bytes_short buf k h)

unfoldable pub verify_run : (A : Type 0) → (Bytes → IResult A) → (A → Bool) → Bytes → IResult A
verify_run A p f buf = p buf >>= λ q. if f q.1 then done q else error

-- The `?` on the result of the function.
abbrev of_option : (B : Type 0) → Bytes → Option B → IResult B
of_option B rest none = error
of_option B rest (some y) = done (rest, y)

unfoldable pub map_res_run :
    (A B : Type 0) → (Bytes → IResult A) → (A → Option B) → Bytes → IResult B
map_res_run A B p f buf = p buf >>= λ q. of_option B q.0 (f q.1)

unfoldable pub cond_run : (A : Type 0) → Bool → (Bytes → IResult A) → Bytes → IResult (Option A)
cond_run A true p buf = p buf >>= λ q. done (q.0, some q.1)
cond_run A false p buf = done (buf, none)

unfoldable pub consumed_run : (A : Type 0) → (Bytes → IResult A) → Bytes → IResult (Bytes × A)
consumed_run A p buf = p buf >>= λ q. done (q.0, (take (length buf - length q.0) buf, q.1))

pub consumed_run_done :
    (A : Type 0) (p : Bytes → IResult A) (front rest : Bytes) (x : A)
    → p (front ++ rest) ≡ done (rest, x)
    → consumed_run A p (front ++ rest) ≡ done (rest, (front, x))
unfolding consumed_run
consumed_run_done A p front rest x e =
    let n : length (front ++ rest) - length rest ≡ length front =
      omega (arith, length-append front rest) in
    rw (e, n, take-append_length front rest)

unfoldable pub nom : Nom
unfolding le_uint verify_run map_res_run cond_run consumed_run
nom = record {
  le_u8 = le_uint 1;
  le_u16 = le_uint 2;
  le_u32 = le_uint 4;
  le_i32 = le_uint 4;
  take = take_bytes;
  verify = verify_run;
  map_res = map_res_run;
  cond = cond_run;
  consumed = consumed_run;
  le_u8_lem = λ x rest h. le_uint_lem 1 x rest h;
  le_u16_lem = λ x rest h. le_uint_lem 2 x rest h;
  le_u32_lem = λ x rest h. le_uint_lem 4 x rest h;
  le_i32_lem = λ x rest h. le_uint_lem 4 x rest h;
  take_lem = take_bytes_lem;
  le_u8_short = le_uint_short 1;
  le_u16_short = le_uint_short 2;
  le_u32_short = le_uint_short 4;
  le_i32_short = le_uint_short 4;
  take_short = take_bytes_short;
  verify_done = λ A p f buf rest x e. rw e;
  verify_incomplete = λ A p f buf e. rw e;
  map_res_some = λ A B p f buf rest x y e h. rw (e, h);
  map_res_none = λ A B p f buf rest x e h. rw (e, h);
  map_res_incomplete = λ A B p f buf e. rw e;
  cond_true = λ A p buf rest x e. rw e;
  cond_incomplete = λ A p buf e. rw e;
  cond_false = λ A p buf. refl;
  consumed_done = consumed_run_done;
  consumed_incomplete = λ A p buf e. rw e;
  consumed_error = λ A p buf e. rw e;
  consumed_panic = λ A p buf e. rw e;
}

concat : List Bytes → Bytes
concat [] = []
concat (b ∷ bs) = b ++ concat bs

unfoldable pub cookie : Cookie
unfolding concat
cookie = record {
  le_u8 = le_bytes 1;
  le_u16 = le_bytes 2;
  le_u32 = le_bytes 4;
  le_i32 = le_bytes 4;
  slice = λ b. b;
  string = λ b. b;
  tuple = concat;
  le_u8_lem = λ x. refl;
  le_u16_lem = λ x. refl;
  le_u32_lem = λ x. refl;
  le_i32_lem = λ x. refl;
  slice_lem = λ b. refl;
  string_lem = λ b. refl;
  tuple_nil = refl;
  tuple_cons = λ b bs. refl;
}
