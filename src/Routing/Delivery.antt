-- ===== src/Routing/Delivery.antt =====
-- What an error of the connection, and a second subscriber, come to in
-- crates/core/src/bc_protocol/connection/bcconn.rs.
use neolink.Base.{
  ℕ, suc, ◌≡◌, refl, sym, ap, ◌∙◌, arith, inl, inr, ◌==◌, ==_self, Bool, true, false, some, List,
  [], ◌∷◌, ◌++◌, if◌then◌else◌, if-cases, if-true, if-false, Bool-cases, replicate, append_assoc,
  append-nil, subst,
}
use neolink.Routing.{
  Error, Reply, err, Channel, Store, update, Entry, Poller, send, broadcast, handle, bc,
}
use neolink.Routing.Consistent.{with_reply}
use neolink.Routing.Upgrade.{send-open}

-- How many entries have a channel.
abbrev pub count : ℕ → List Entry → ℕ
count c [] = 0
count c (e ∷ es) = if e.sender == c then suc (count c es) else count c es

-- The channel with a reply more, as often as is told.
abbrev pub with_replies : Channel → List Reply → Channel
with_replies c rs = record c { sent = c.sent ++ rs }

abbrev once : Bool → Reply → List Reply
once b r = if b then r ∷ [] else []

with_none : (c : Channel) → c ≡ with_replies c []
with_none c = ap (λ l. record c { sent = l }) (sym (append-nil c.sent))

send-elsewhere : (s : Store) (k c : ℕ) (r : Reply) → (c == k) ≡ false → send s k r c ≡ s c
unfolding send update
send-elsewhere s k c r e =
    if-cases (λ (t : Store). t c ≡ s c) (s k).closed s (update s k (with_reply (s k) r)) (λ b. refl)
      (λ b. if-false (c == k) (with_reply (s k) r) (s c) e)

-- A reply that is sent to one channel comes to that one.
send-once :
    (s : Store) (k c : ℕ) (r : Reply)
    → (s c).closed ≡ false
    → send s k r c ≡ with_replies (s c) (once (k == c) r)
send-once s k c r o = elim (Bool-cases (k == c)) [
  | inl e ↦
      let i : k ≡ c = ground arith in
      subst (λ j. send s j r c ≡ with_replies (s c) (once (j == c) r)) (sym i)
        (send-open s c r o
          ∙ ap (with_replies (s c)) (sym (if-true (c == c) (r ∷ []) [] (==_self c))))
  | inr e ↦
      send-elsewhere s k c r (ground arith)
      ∙ with_none (s c)
      ∙ ap (with_replies (s c)) (sym (if-false (k == c) (r ∷ []) [] e))
]

once-replicate :
    (b : Bool) (r : Reply) (n : ℕ)
    → once b r ++ replicate n r ≡ replicate (if b then suc n else n) r
once-replicate true r n = refl
once-replicate false r n = refl

broadcast-replicate :
    (s : Store) (es : List Entry) (r : Reply) (c : ℕ)
    → (s c).closed ≡ false
    → broadcast s es r c ≡ with_replies (s c) (replicate (count c es) r)
unfolding broadcast
broadcast-replicate s [] r c o = with_none (s c)
broadcast-replicate s (e ∷ es) r c o =
    let sent = send-once s e.sender c r o in
    broadcast-replicate (send s e.sender r) es r c (ap (λ (d : Channel). d.closed) sent ∙ o)
    ∙ ap (λ d. with_replies d (replicate (count c es) r)) sent
    ∙ ap (λ l. record (s c) { sent = l })
        (append_assoc (s c).sent (once (e.sender == c) r) (replicate (count c es) r)
          ∙ ap (λ l. (s c).sent ++ l) (once-replicate (e.sender == c) r (count c es)))

-- An error of the connection ends the loop and clears both maps. It is sent to the subscribers: a
-- channel whose receiver is there gets it once for each entry that has the channel, and one that
-- no entry has is left as it is.
pub handle_error :
    (p : Poller) (x : Error) (c : ℕ)
    → (p.channels c).closed ≡ false
    → ((handle p (bc (err x))).1 ≡ some x)
      × ((handle p (bc (err x))).0.num ≡ [])
      × ((handle p (bc (err x))).0.id ≡ [])
      × ((handle p (bc (err x))).0.channels c
          ≡ with_replies (p.channels c) (replicate (count c p.num) (err x)))
unfolding handle
handle_error p x c o = (refl, refl, refl, broadcast-replicate p.channels p.num (err x) c o)
