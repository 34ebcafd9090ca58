-- ===== src/Wire/Reads.antt =====
-- What a streaming parser reads: the bytes of a value, whatever follows them, and nothing of an
-- initial part of them. The rules follow the parsers' structure.
use neolink.Base.{
  ℕ, ◌+◌, ◌≡◌, ◌≤◌, false, refl, sym, ap, subst, arith, [], ◌∷◌, ◌++◌, length, Bool, true, Option,
  none, some, append_assoc, length-append,
}
use neolink.Base.Words.{Bytes, IsByte, IsU16, IsU32, le_bytes, length-le_bytes}
use neolink.Wire.Defs.{IResult, done, incomplete, ◌>>=◌, Nom}

pub record Reads {A : Type 0} (p : Bytes → IResult A) (e : Bytes) (x : A) : Type 0 where
  pub whole : (rest : Bytes) → p (e ++ rest) ≡ done (rest, x)
  pub part : (front : Bytes) (b : ℕ) (back : Bytes) → front ++ (b ∷ back) ≡ e → p front ≡ incomplete

-- Where two bytes strings make up the same as two others, the first ends within the other first or
-- beyond it.
data Split (front back e e' : Bytes) : Type 0 where
  within : (b : ℕ) (bs : Bytes) → front ++ (b ∷ bs) ≡ e → Split front back e e'
  beyond : (f : Bytes) → front ≡ e ++ f → f ++ back ≡ e' → Split front back e e'

later :
    {a b : ℕ} {front back e e' : Bytes}
    → a ≡ b
    → Split front back e e'
    → Split (a ∷ front) back (b ∷ e) e'
later h (within c cs p) = within c cs (cc)
later h (beyond f p q) = beyond f (cc) q

split : (front back e e' : Bytes) → front ++ back ≡ e ++ e' → Split front back e e'
split [] back [] e' h = beyond [] refl h
split [] back (b ∷ e) e' h = within b e refl
split (a ∷ front) back [] e' h = beyond (a ∷ front) refl h
split (a ∷ front) back (b ∷ e) e' h = later (cc) (split front back e e' (cc))

module _ {A B : Type 0} {p : Bytes → IResult A} (k : Bytes × A → IResult B) {e e' : Bytes} {x : A}
    {y : B} where
  bind_part :
      Reads p e x
      → Reads (λ b. k (b, x)) e' y
      → (front : Bytes) (b : ℕ) (back : Bytes) → Split front (b ∷ back) e e'
      → (p front >>= k) ≡ incomplete
  bind_part r s front b back (within c cs h) = rw (r.part front c cs h)
  bind_part r s front b back (beyond f h g) = rw (h, r.whole f) (s.part f b back g)

  -- A parser and then another, on what one reads and then the other.
  pub bind-Reads : Reads p e x → Reads (λ b. k (b, x)) e' y → Reads (λ b. p b >>= k) (e ++ e') y
  bind-Reads r s = record {
    whole = λ rest. rw (append_assoc e e' rest, r.whole (e' ++ rest)) (s.whole rest);
    part = λ front b back h. bind_part r s front b back (split front (b ∷ back) e e' h);
  }

pub returns : {A : Type 0} (x : A) → Reads (λ b. done (b, x)) [] x
returns x = record { whole = λ rest. refl; part = λ front b back h. no_bytes front b back h }
  where
    no_bytes :
        (front : Bytes) (b : ℕ) (back : Bytes)
        → front ++ (b ∷ back) ≡ []
        → done (front, x) ≡ incomplete
    no_bytes [] b back h = cc
    no_bytes (a ∷ front) b back h = cc

shorter :
    (front : Bytes) (b : ℕ) (back e : Bytes) → front ++ (b ∷ back) ≡ e → length front + 1 ≤ length e
shorter front b back e h = omega (arith, ap length h, length-append front (b ∷ back))

-- What takes no bytes.
pub nothing-Reads :
    {A : Type 0} {p : Bytes → IResult A} {x : A} → ((b : Bytes) → p b ≡ done (b, x)) → Reads p [] x
nothing-Reads {A} {p} {x} h = record {
  whole = h;
  part = λ front b back e. absurd (omega (arith, shorter front b back [] e));
}

-- What is read, under a function.
pub map-Reads :
    {A B : Type 0} {p : Bytes → IResult A} {e : Bytes} {x : A} (f : A → B)
    → Reads p e x
    → Reads (λ b. p b >>= λ q. done (q.0, f q.1)) e (f x)
map-Reads f r = record {
  whole = λ rest. rw (r.whole rest);
  part = λ front b back h. rw (r.part front b back h);
}

-- The same bytes, written otherwise.
pub same_bytes :
    {A : Type 0} {p : Bytes → IResult A} {e e' : Bytes} {x : A}
    → e' ≡ e
    → Reads p e x
    → Reads p e' x
same_bytes {A} {p} {e} {e'} {x} h r = subst (λ b. Reads p b x) (sym h) r

module _ (n : Nom) where
  pub u8-Reads : (x : ℕ) → IsByte x → Reads n.le_u8 (le_bytes 1 x) x
  u8-Reads x h = record {
    whole = λ rest. n.le_u8_lem x rest h;
    part = λ front b back e.
        n.le_u8_short front
          (omega (arith, shorter front b back (le_bytes 1 x) e, length-le_bytes 1 x));
  }

  pub u16-Reads : (x : ℕ) → IsU16 x → Reads n.le_u16 (le_bytes 2 x) x
  u16-Reads x h = record {
    whole = λ rest. n.le_u16_lem x rest h;
    part = λ front b back e.
        n.le_u16_short front
          (omega (arith, shorter front b back (le_bytes 2 x) e, length-le_bytes 2 x));
  }

  pub u32-Reads : (x : ℕ) → IsU32 x → Reads n.le_u32 (le_bytes 4 x) x
  u32-Reads x h = record {
    whole = λ rest. n.le_u32_lem x rest h;
    part = λ front b back e.
        n.le_u32_short front
          (omega (arith, shorter front b back (le_bytes 4 x) e, length-le_bytes 4 x));
  }

  pub take-Reads : (k : ℕ) (e : Bytes) → length e ≡ k → Reads (n.take k) e e
  take-Reads k e h = record {
    whole = λ rest. n.take_lem e rest k h;
    part = λ front b back q. n.take_short front k (omega (arith, shorter front b back e q, h));
  }

  pub verify-Reads :
      {A : Type 0} {p : Bytes → IResult A} (f : A → Bool) {e : Bytes} {x : A}
      → Reads p e x
      → f x ≡ true
      → Reads (n.verify A p f) e x
  verify-Reads {A} {p} f {e} {x} r h = record {
    whole = λ rest. rw (n.verify_done A p f (e ++ rest) rest x (r.whole rest), h);
    part = λ front b back q. n.verify_incomplete A p f front (r.part front b back q);
  }

  pub map_res-Reads :
      {A B : Type 0} {p : Bytes → IResult A} (f : A → Option B) {e : Bytes} {x : A} (y : B)
      → Reads p e x
      → f x ≡ some y
      → Reads (n.map_res A B p f) e y
  map_res-Reads {A} {B} {p} f {e} {x} y r h = record {
    whole = λ rest. n.map_res_some A B p f (e ++ rest) rest x y (r.whole rest) h;
    part = λ front b back q. n.map_res_incomplete A B p f front (r.part front b back q);
  }

  pub consumed-Reads :
      {A : Type 0} {p : Bytes → IResult A} {e : Bytes} {x : A}
      → Reads p e x
      → Reads (n.consumed A p) e (e, x)
  consumed-Reads {A} {p} {e} {x} r = record {
    whole = λ rest. n.consumed_done A p e rest x (r.whole rest);
    part = λ front b back q. n.consumed_incomplete A p front (r.part front b back q);
  }

  pub cond-Reads :
      {A : Type 0} {p : Bytes → IResult A} {e : Bytes} {x : A}
      → Reads p e x
      → Reads (n.cond A true p) e (some x)
  cond-Reads {A} {p} {e} {x} r = record {
    whole = λ rest. n.cond_true A p (e ++ rest) rest x (r.whole rest);
    part = λ front b back q. n.cond_incomplete A p front (r.part front b back q);
  }

  pub skip-Reads : {A : Type 0} (p : Bytes → IResult A) → Reads (n.cond A false p) [] none
  skip-Reads {A} p = record {
    whole = λ rest. n.cond_false A p rest;
    part = λ front b back q. absurd (omega (arith, shorter front b back [] q));
  }
