-- ===== src/Routing/Upgrade.antt =====
-- What the commands of crates/core/src/bc_protocol/connection/bcconn.rs do to the numbers of the
-- channels.
use neolink.Base.{
  ℕ, ◌≡◌, refl, sym, ap, ◌∙◌, inl, inr, ◌==◌, ==_self, true, false, Option, some, none, List,
  if-true, if-false, Bool-cases, subst,
}
use neolink.Bc.Model.{Bc}
use neolink.Routing.{
  Reply, ok, Store, update, Entry, Poller, is_key, get, remove, insert, send, open_one, upgrade,
  dispatch, route,
}
use neolink.Routing.Consistent.{
  IsConsistent, IsEntryOf, with_reply, send-cases, key_of-first, first-IsConsistent,
}
use neolink.Routing.Entries.{num_eq_self, All-remove, get-All, All-map}
use neolink.Routing.Numbers.{EntryOk, IsSound, remove-IsSound, insert-IsSound, send_ok-IsSound}

send-closed : (s : Store) (c : ℕ) (r : Reply) → (s c).closed ≡ true → send s c r ≡ s
unfolding send
send-closed s c r e = if-true (s c).closed s _ e

pub send-open :
    (s : Store) (c : ℕ) (r : Reply) → (s c).closed ≡ false → send s c r c ≡ with_reply (s c) r
unfolding send update
send-open s c r e =
    ap (λ (t : Store). t c) (if-false (s c).closed s (update s c (with_reply (s c) r)) e)
    ∙ if-true (c == c) (with_reply (s c) r) (s c) (==_self c)

-- An entry under a key has that key.
is_key_of :
    (msg_id : ℕ) (msg_num : Option ℕ) (e : Entry)
    → e.msg_id ≡ msg_id
    → e.msg_num ≡ msg_num
    → is_key msg_id msg_num e ≡ true
is_key_of msg_id msg_num e i k = rw (i, k, ==_self msg_id) (num_eq_self msg_num)

-- The subscriber that waits for a number is given the message, and its entry the number.
module _ (s : Store) (next : ℕ) (num : List Entry) (m : Bc) (c : ℕ) (h : IsSound s next num)
    (g : get num m.meta.msg_id none ≡ some c) where
  waiting : EntryOk s next (record { msg_id = m.meta.msg_id; msg_num = none; sender = c })
  waiting = get-All (EntryOk s next) num m.meta.msg_id none c h.entries g

  same_key :
      (e : Entry) → (s c).closed ≡ false → IsEntryOf e (s c) → is_key m.meta.msg_id none e ≡ true
  same_key e o (inl gone) = cc
  same_key e o (inr (i, k)) = elim waiting.0 [
    | inl gone ↦ cc
    | inr (j, w) ↦ is_key_of m.meta.msg_id none e (i ∙ sym j) (k ∙ sym w)
  ]

  -- No other entry has the same channel.
  others :
      (e : Entry)
      → EntryOk s next e × (is_key m.meta.msg_id none e ≡ false)
      → EntryOk (send s c (ok m)) next e
  others e ((p, l), b) = (
    send-cases (IsEntryOf e) s c (ok m) e.sender p
        (λ j o. let clash = same_key e o (subst (λ k. IsEntryOf e (s k)) j p) in cc),
    l,
  )

  now_known :
      IsEntryOf
        (record { msg_id = m.meta.msg_id; msg_num = some m.meta.msg_num; sender = c })
        (send s c (ok m) c)
  now_known = elim (Bool-cases (s c).closed) [
    | inl gone ↦ rw (send-closed s c (ok m) gone) (inl gone)
    | inr o ↦ elim waiting.0 [
      | inl gone ↦ cc
      | inr (i, w) ↦ rw (send-open s c (ok m) o) (inr (i, sym (key_of-first (s c) m (sym w))))
    ]
  ]

  upgraded-IsConsistent : (j : ℕ) → IsConsistent (send s c (ok m) j)
  upgraded-IsConsistent j =
      send-cases IsConsistent s c (ok m) j (h.consistent j) (λ _ o. elim waiting.0 [
        | inl gone ↦ cc
        | inr (i, w) ↦ first-IsConsistent (s c) m i (sym w)
      ])

  pub upgraded-IsSound :
      IsSound
        (send s c (ok m))
        next
        (insert (remove num m.meta.msg_id none) m.meta.msg_id (some m.meta.msg_num) c)
  upgraded-IsSound =
      insert-IsSound (send s c (ok m)) next (remove num m.meta.msg_id none) m.meta.msg_id
        (some m.meta.msg_num) c (now_known, waiting.1)
        (record {
          entries =
              All-map _ (EntryOk (send s c (ok m)) next) (remove num m.meta.msg_id none) others
                (All-remove (EntryOk s next) num m.meta.msg_id none h.entries);
          consistent = upgraded-IsConsistent;
        })

abbrev pub Sound : Poller → Type 0
Sound p = IsSound p.channels p.next_channel p.num

upgrade-Sound :
    (p : Poller) (m : Bc) (o : Option ℕ)
    → get p.num m.meta.msg_id none ≡ o
    → Sound p
    → Sound (upgrade p m o)
unfolding upgrade
upgrade-Sound p m none g h =
    remove-IsSound p.channels p.next_channel p.num m.meta.msg_id (some m.meta.msg_num) h
upgrade-Sound p m (some c) g h = upgraded-IsSound p.channels p.next_channel p.num m c h g

-- An open sender that is found under a key.
open_one-open :
    (s : Store) (o : Option ℕ) (c : ℕ)
    → open_one s o ≡ some c
    → (o ≡ some c) × ((s c).closed ≡ false)
open_one-open s none c e = cc
open_one-open s (some d) c e = elim (Bool-cases (s d).closed) [
  | inl gone ↦ let bad : none ≡ some c = rw gone at e in cc
  | inr o ↦
      let found : some d ≡ some c = rw o at e in (found, subst (λ k. (s k).closed ≡ false) (cc) o)
]

dispatch-Sound :
    (p : Poller) (m : Bc) (o : Option ℕ)
    → open_one p.channels (get p.num m.meta.msg_id (some m.meta.msg_num)) ≡ o
    → Sound p
    → Sound (dispatch p m o)
unfolding dispatch
dispatch-Sound p m none e h = upgrade-Sound p m (get p.num m.meta.msg_id none) refl h
dispatch-Sound p m (some c) e h =
    let (g, o) = open_one-open p.channels _ c e in
    send_ok-IsSound p.channels p.next_channel p.num c m o
      (get-All (EntryOk p.channels p.next_channel) p.num m.meta.msg_id (some m.meta.msg_num) c
        h.entries g).0
      h

pub route-Sound : (p : Poller) (m : Bc) (o : Option ℕ) → Sound p → Sound (route p m o)
unfolding route
route-Sound p m (some handler) h = h
route-Sound p m none h = dispatch-Sound p m _ refl h
