-- ===== src/Routing/Consistent.antt =====
-- One channel of crates/core/src/bc_protocol/connection/bcconn.rs: its number, and what one more
-- reply does to it.
use neolink.Base.{
  ℕ, ◌≡◌, refl, sym, ap, ◌∙◌, arith, inl, inr, ◌⊎◌, ◌==◌, true, false, Option, some, none, List, [],
  ◌∷◌, ◌++◌, All, All-append, if-cases, subst,
}
use neolink.Bc.Model.{Bc}
use neolink.Routing.{Error, Reply, ok, err, Channel, Store, update, Entry, send}

-- The messages among what has been sent.
abbrev pub messages : List Reply → List Bc
messages [] = []
messages (ok m ∷ rs) = m ∷ messages rs
messages (err e ∷ rs) = messages rs

abbrev pub first_num : List Bc → Option ℕ
first_num [] = none
first_num (m ∷ ms) = some m.meta.msg_num

abbrev pub or_first : Option ℕ → List Bc → Option ℕ
or_first none ms = first_num ms
or_first (some n) ms = some n

-- The number of a channel: the one asked for, or that of the first message.
abbrev pub key_of : Channel → Option ℕ
key_of c = or_first c.msg_num (messages c.sent)

abbrev pub IsOneOf : ℕ → Option ℕ → Bc → Type 0
IsOneOf msg_id key m = (m.meta.msg_id ≡ msg_id) × (key ≡ some m.meta.msg_num)

-- All messages have the id asked for and the number of the channel.
abbrev pub IsConsistent : Channel → Type 0
IsConsistent c = All (IsOneOf c.msg_id (key_of c)) (messages c.sent)

-- What an entry says of its channel, unless the receiver has gone.
abbrev pub IsEntryOf : Entry → Channel → Type 0
IsEntryOf e c = (c.closed ≡ true) ⊎ ((e.msg_id ≡ c.msg_id) × (e.msg_num ≡ key_of c))

abbrev pub with_reply : Channel → Reply → Channel
with_reply c reply = record c { sent = c.sent ++ (reply ∷ []) }

messages-append : (xs ys : List Reply) → messages (xs ++ ys) ≡ messages xs ++ messages ys
messages-append [] ys = refl
messages-append (ok m ∷ xs) ys = ap (λ l. m ∷ l) (messages-append xs ys)
messages-append (err e ∷ xs) ys = messages-append xs ys

append_none {ℓ} : {A : Type ℓ} (xs : List A) → xs ++ [] ≡ xs
append_none [] = refl
append_none (x ∷ xs) = ap (λ l. x ∷ l) (append_none xs)

messages-append_err : (xs : List Reply) (e : Error) → messages (xs ++ (err e ∷ [])) ≡ messages xs
messages-append_err xs e = messages-append xs (err e ∷ []) ∙ append_none (messages xs)

module _ (P : Channel → Type 0) (s : Store) (c : ℕ) where
  -- To show something of each channel after an update.
  pub update-cases :
      (channel : Channel) (j : ℕ) → P (s j) → (j ≡ c → P channel) → P (update s c channel j)
  unfolding update
  update-cases channel j old new =
      if-cases P (j == c) channel (s j) (λ e. new (ground arith)) (λ e. old)

  pub send-cases :
      (reply : Reply) (j : ℕ)
      → P (s j)
      → (j ≡ c → (s c).closed ≡ false → P (with_reply (s c) reply))
      → P (send s c reply j)
  unfolding send
  send-cases reply j old new =
      if-cases (λ (t : Store). P (t j)) (s c).closed s (update s c (with_reply (s c) reply))
        (λ e. old) (λ e. update-cases (with_reply (s c) reply) j old (λ i. new i e))

pub err-IsConsistent :
    (c : Channel) (e : Error) → IsConsistent c → IsConsistent (with_reply c (err e))
err-IsConsistent c e h = rw (messages-append_err c.sent e) h

pub err-IsEntryOf :
    (x : Entry) (c : Channel) (e : Error) → IsEntryOf x c → IsEntryOf x (with_reply c (err e))
err-IsEntryOf x c e h = rw (messages-append_err c.sent e) h

or_first_known :
    (o : Option ℕ) (ms : List Bc) (m : Bc) (n : ℕ)
    → or_first o ms ≡ some n
    → or_first o (ms ++ (m ∷ [])) ≡ or_first o ms
or_first_known (some k) ms m n e = refl
or_first_known none (x ∷ ms) m n e = refl
or_first_known none [] m n e = cc

-- A channel whose number is known keeps it.
key_of-with_reply :
    (c : Channel) (m : Bc) (n : ℕ) → key_of c ≡ some n → key_of (with_reply c (ok m)) ≡ key_of c
key_of-with_reply c m n e =
    rw (messages-append c.sent (ok m ∷ [])) (or_first_known c.msg_num (messages c.sent) m n e)

-- One that waits for its number has had no message.
or_first_unknown : (o : Option ℕ) (ms : List Bc) → or_first o ms ≡ none → (o ≡ none) × (ms ≡ [])
or_first_unknown (some k) ms e = cc
or_first_unknown none [] e = (refl, refl)
or_first_unknown none (x ∷ ms) e = cc

IsOneOf-weaken :
    (msg_id : ℕ) (k j : Option ℕ) (ms : List Bc)
    → j ≡ k
    → All (IsOneOf msg_id k) ms
    → All (IsOneOf msg_id j) ms
IsOneOf-weaken msg_id k j ms e h = rw e h

pub ok-IsConsistent :
    (c : Channel) (m : Bc)
    → m.meta.msg_id ≡ c.msg_id
    → key_of c ≡ some m.meta.msg_num
    → IsConsistent c
    → IsConsistent (with_reply c (ok m))
ok-IsConsistent c m i k h =
    let same = key_of-with_reply c m m.meta.msg_num k in
    subst (All (IsOneOf c.msg_id (key_of (with_reply c (ok m)))))
      (sym (messages-append c.sent (ok m ∷ [])))
      (IsOneOf-weaken c.msg_id (key_of c) _ _ same
        (All-append (IsOneOf c.msg_id (key_of c)) (messages c.sent) (m ∷ []) h ((i, k), tt)))

pub ok-IsEntryOf :
    (x : Entry) (c : Channel) (m : Bc) (n : ℕ)
    → key_of c ≡ some n
    → IsEntryOf x c
    → IsEntryOf x (with_reply c (ok m))
ok-IsEntryOf x c m n k (inl e) = inl e
ok-IsEntryOf x c m n k (inr (i, e)) = inr (i, e ∙ sym (key_of-with_reply c m n k))

-- The first message gives the number.
pub key_of-first :
    (c : Channel) (m : Bc) → key_of c ≡ none → key_of (with_reply c (ok m)) ≡ some m.meta.msg_num
key_of-first c m e =
    let (o, f) = or_first_unknown c.msg_num (messages c.sent) e in
    rw (messages-append c.sent (ok m ∷ []), o, f) refl

pub first-IsConsistent :
    (c : Channel) (m : Bc)
    → m.meta.msg_id ≡ c.msg_id
    → key_of c ≡ none
    → IsConsistent (with_reply c (ok m))
first-IsConsistent c m i e =
    let (o, f) = or_first_unknown c.msg_num (messages c.sent) e in
    let only : messages (c.sent ++ (ok m ∷ [])) ≡ m ∷ [] =
      messages-append c.sent (ok m ∷ []) ∙ ap (λ l. l ++ (m ∷ [])) f in
    subst (All (IsOneOf c.msg_id (key_of (with_reply c (ok m))))) (sym only)
      ((i, key_of-first c m e), tt)
