-- ===== src/Routing/Entries.antt =====
-- The map of the subscribers of crates/core/src/bc_protocol/connection/bcconn.rs as a list of
-- entries.
use neolink.Base.{
  ℕ, ◌≡◌, refl, ap, arith, inl, inr, ◌==◌, ==_self, true, false, Option, some, none, List, [], ◌∷◌,
  All, if-cases, Bool-cases, subst,
}
use neolink.Routing.{Store, Entry, num_eq, is_key, get, remove, retain_open}

num_eq-same : (a b : Option ℕ) → num_eq a b ≡ true → a ≡ b
num_eq-same none none h = refl
num_eq-same (some a) (some b) h = ap some (ground arith)
num_eq-same none (some b) h = cc
num_eq-same (some a) none h = cc

pub num_eq_self : (a : Option ℕ) → num_eq a a ≡ true
num_eq_self none = refl
num_eq_self (some a) = ==_self a

pub is_key-same :
    (msg_id : ℕ) (msg_num : Option ℕ) (e : Entry)
    → is_key msg_id msg_num e ≡ true
    → (e.msg_id ≡ msg_id) × (e.msg_num ≡ msg_num)
is_key-same msg_id msg_num e h = elim (Bool-cases (e.msg_id == msg_id)) [
  | inl p ↦ (ground arith, num_eq-same e.msg_num msg_num (rw p at h))
  | inr p ↦ let bad : false ≡ true = rw p at h in cc
]

module _ {κ} (P : Entry → Type κ) where
  pub All-retain_open : (s : Store) (es : List Entry) → All P es → All P (retain_open s es)
  unfolding retain_open
  All-retain_open s [] h = tt
  All-retain_open s (e ∷ es) (h, hs) =
      if-cases (All P) ((s e.sender).closed) _ _ (λ b. All-retain_open s es hs)
        (λ b. (h, All-retain_open s es hs))

  pub All-remove :
      (es : List Entry) (msg_id : ℕ) (msg_num : Option ℕ)
      → All P es
      → All (λ e. P e × (is_key msg_id msg_num e ≡ false)) (remove es msg_id msg_num)
  unfolding remove
  All-remove [] msg_id msg_num h = tt
  All-remove (e ∷ es) msg_id msg_num (h, hs) =
      if-cases (All (λ e. P e × (is_key msg_id msg_num e ≡ false))) (is_key msg_id msg_num e) _ _
        (λ b. All-remove es msg_id msg_num hs) (λ b. ((h, b), All-remove es msg_id msg_num hs))

  -- What is found under a key is an entry with that key.
  pub get-All :
      (es : List Entry) (msg_id : ℕ) (msg_num : Option ℕ) (c : ℕ)
      → All P es
      → get es msg_id msg_num ≡ some c
      → P (record { msg_id = msg_id; msg_num = msg_num; sender = c })
  unfolding get
  get-All [] msg_id msg_num c h g = cc
  get-All (e ∷ es) msg_id msg_num c (h, hs) g = elim (Bool-cases (is_key msg_id msg_num e)) [
    | inl b ↦
        let (i, k) = is_key-same msg_id msg_num e b in
        let found : some e.sender ≡ some c = rw b at g in
        let sender : e.sender ≡ c = cc in
        subst P (λ j. record { msg_id = i j; msg_num = k j; sender = sender j }) h
    | inr b ↦ get-All es msg_id msg_num c hs (rw b at g)
  ]

module _ {ℓ κ} {A : Type ℓ} (P Q : A → Type κ) where
  pub All-map : (xs : List A) → ((x : A) → P x → Q x) → All P xs → All Q xs
  All-map [] f h = tt
  All-map (x ∷ xs) f (h, hs) = (f x h, All-map xs f hs)
