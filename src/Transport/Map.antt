-- ===== src/Transport/Map.antt =====
-- `std::collections::BTreeMap` with `u32` keys, as the list of its entries in the order of the keys.
use neolink.Base.{
  ℕ, ◌≡◌, ◌<◌, ◌≤◌, refl, sym, arith, List, [], ◌∷◌, Bool, true, false, not, ◌&&◌, ◌||◌, Option,
  none, some, ltb, leb, ◌==◌, if◌then◌else◌, length, Bool-cases, inl, inr,
}

-- The key is at most the largest one.
abbrev pub is_within : ℕ → Option ℕ → Bool
is_within k none = false
is_within k (some i) = leb k i

module _ {V : Type 0} where
  unfoldable pub lookup : ℕ → List (ℕ × V) → Option V
  lookup k [] = none
  lookup k ((j, v) ∷ m) = if j == k then some v else lookup k m

  unfoldable pub contains_key : ℕ → List (ℕ × V) → Bool
  contains_key k [] = false
  contains_key k ((j, v) ∷ m) = j == k || contains_key k m

  unfoldable pub insert : ℕ → V → List (ℕ × V) → List (ℕ × V)
  insert k v [] = (k, v) ∷ []
  insert k v ((j, w) ∷ m) =
      if j == k
      then (k, v) ∷ m
      else if ltb k j
      then (k, v) ∷ ((j, w) ∷ m)
      else (j, w) ∷ insert k v m

  unfoldable pub remove : ℕ → List (ℕ × V) → List (ℕ × V)
  remove k [] = []
  remove k ((j, v) ∷ m) = if j == k then remove k m else (j, v) ∷ remove k m

  unfoldable pub retain : (ℕ → Bool) → List (ℕ × V) → List (ℕ × V)
  retain p [] = []
  retain p ((j, v) ∷ m) = if p j then (j, v) ∷ retain p m else retain p m

  -- `keys().max()`
  unfoldable pub max_key : List (ℕ × V) → Option ℕ
  max_key [] = none
  max_key ((j, v) ∷ m) = elim (max_key m) [
    | none ↦ some j
    | some i ↦ if ltb i j then some j else some i
  ]

  -- Every entry satisfies `P`.
  abbrev pub Entries {κ} : (ℕ → V → Type κ) → List (ℕ × V) → Type κ
  Entries P [] = Unit {κ}
  Entries P ((j, v) ∷ m) = P j v × Entries P m

  pub contains_key-insert :
      (k j : ℕ) (v : V) (m : List (ℕ × V))
      → contains_key j (insert k v m) ≡ (k == j || contains_key j m)
  unfolding contains_key insert
  contains_key-insert k j v [] = refl
  contains_key-insert k j v ((i, w) ∷ m) = ground (arith, contains_key-insert k j v m)

  -- A key that is inserted has the new value, and the others have what they had.
  pub lookup-insert :
      (m : List (ℕ × V)) (key new_key : ℕ) (value : V)
      → lookup key (insert new_key value m) ≡ (if new_key == key then some value else lookup key m)
  unfolding insert lookup
  lookup-insert [] key new_key value = ground arith
  lookup-insert (first ∷ others) key new_key value =
      ground (arith, lookup-insert others key new_key value)

  pub contains_key-remove :
      (k j : ℕ) (m : List (ℕ × V))
      → contains_key j (remove k m) ≡ (not (k == j) && contains_key j m)
  unfolding contains_key remove
  contains_key-remove k j [] = ground arith
  contains_key-remove k j ((i, w) ∷ m) = ground (arith, contains_key-remove k j m)

  pub contains_key-retain :
      (p : ℕ → Bool) (j : ℕ) (m : List (ℕ × V))
      → contains_key j (retain p m) ≡ (p j && contains_key j m)
  unfolding contains_key retain
  contains_key-retain p j [] = ground arith
  contains_key-retain p j ((i, w) ∷ m) = ground (arith, contains_key-retain p j m)

  pub insert-Entries {κ} :
      (P : ℕ → V → Type κ) (k : ℕ) (v : V) (m : List (ℕ × V))
      → P k v
      → Entries P m
      → Entries P (insert k v m)
  unfolding insert
  insert-Entries P k v [] p h = (p, tt)
  insert-Entries P k v ((i, w) ∷ m) p (q, h) = ground (arith, insert-Entries P k v m p h)

  pub remove-Entries {κ} :
      (P : ℕ → V → Type κ) (k : ℕ) (m : List (ℕ × V)) → Entries P m → Entries P (remove k m)
  unfolding remove
  remove-Entries P k [] h = tt
  remove-Entries P k ((i, w) ∷ m) (q, h) = ground (arith, remove-Entries P k m h)

  -- What is found was put there.
  pub lookup-Entries {κ} :
      (P : ℕ → V → Type κ) (k : ℕ) (m : List (ℕ × V)) (v : V)
      → lookup k m ≡ some v
      → Entries P m
      → P k v
  unfolding lookup
  lookup-Entries P k [] v e h = cc
  lookup-Entries P k ((i, w) ∷ m) v e (q, h) = elim (Bool-cases (i == k)) [
    | inr n ↦ lookup-Entries P k m v (ground arith) h
    | inl y ↦ let p : i ≡ k = ground arith in let r : w ≡ v = ground arith in rw (sym p, sym r) q
  ]

  pub lookup-contains_key :
      (k : ℕ) (m : List (ℕ × V)) → contains_key k m ≡ true → (v : V) × (lookup k m ≡ some v)
  unfolding lookup contains_key
  lookup-contains_key k [] e = cc
  lookup-contains_key k ((i, w) ∷ m) e = elim (Bool-cases (i == k)) [
    | inl y ↦ (w, ground arith)
    | inr n ↦ let (v, p) = lookup-contains_key k m (ground arith) in (v, ground arith)
  ]

  pub lookup-absent : (k : ℕ) (m : List (ℕ × V)) → lookup k m ≡ none → contains_key k m ≡ false
  unfolding lookup contains_key
  lookup-absent k [] e = refl
  lookup-absent k ((i, w) ∷ m) e = ground (arith, lookup-absent k m)

  pub length-remove : (k : ℕ) (m : List (ℕ × V)) → length (remove k m) ≤ length m
  unfolding remove
  length-remove k [] = omega arith
  length-remove k ((i, w) ∷ m) = ground (arith, length-remove k m)

  pub length-remove_found :
      (k : ℕ) (m : List (ℕ × V)) (v : V) → lookup k m ≡ some v → length (remove k m) < length m
  unfolding lookup remove
  length-remove_found k [] v e = cc
  length-remove_found k ((i, w) ∷ m) v e =
      ground (arith, length-remove k m, length-remove_found k m v)

  pub contains_key-max_key :
      (k : ℕ) (m : List (ℕ × V)) → contains_key k m ≡ true → is_within k (max_key m) ≡ true
  unfolding contains_key max_key
  contains_key-max_key k [] e = cc
  contains_key-max_key k ((j, w) ∷ m) e = ground (arith, contains_key-max_key k m)
