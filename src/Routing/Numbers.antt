-- ===== src/Routing/Numbers.antt =====
-- Every subscription of a connection is sent the messages of one number only, whatever the camera
-- sends and whoever subscribes: crates/core/src/bc_protocol/connection/bcconn.rs.
use neolink.Base.{
  ℕ, ◌<◌, ◌≡◌, refl, sym, inl, inr, true, false, Option, some, List, [], ◌∷◌, All, subst,
}
use neolink.Bc.Model.{Bc}
use neolink.Routing.{
  Error, ok, err, Store, update, Entry, remove, insert, retain_open, send, broadcast,
  close_receivers,
}
use neolink.Routing.Consistent.{
  IsConsistent, IsEntryOf, update-cases, send-cases, err-IsConsistent, err-IsEntryOf,
  ok-IsConsistent, ok-IsEntryOf,
}
use neolink.Routing.Entries.{All-retain_open, All-remove, All-map}

abbrev pub EntryOk : Store → ℕ → Entry → Type 0
EntryOk s next e = IsEntryOf e (s e.sender) × (e.sender < next)

-- Every entry goes with its channel, and every channel has had the messages of one number.
pub record IsSound (s : Store) (next : ℕ) (num : List Entry) : Type 0 where
  pub entries : All (EntryOk s next) num
  pub consistent : (c : ℕ) → IsConsistent (s c)

pub close_receivers-IsSound :
    (s : Store) (next : ℕ) (num : List Entry) (cs : List ℕ)
    → IsSound s next num
    → IsSound (close_receivers s cs) next num
unfolding close_receivers
close_receivers-IsSound s next num [] h = h
close_receivers-IsSound s next num (c ∷ cs) h =
    let gone = record (s c) { closed = true } in
    close_receivers-IsSound (update s c gone) next num cs (record {
      entries =
          All-map (EntryOk s next) (EntryOk (update s c gone) next) num
            (λ e (p, l). (update-cases (IsEntryOf e) s c gone e.sender p (λ i. inl refl), l))
            h.entries;
      consistent = λ j. update-cases IsConsistent s c gone j (h.consistent j) (λ i. h.consistent c);
    })

pub retain_open-IsSound :
    (s t : Store) (next : ℕ) (num : List Entry)
    → IsSound s next num
    → IsSound s next (retain_open t num)
retain_open-IsSound s t next num h = record {
  entries = All-retain_open (EntryOk s next) t num h.entries;
  consistent = h.consistent;
}

pub remove-IsSound :
    (s : Store) (next : ℕ) (num : List Entry) (msg_id : ℕ) (msg_num : Option ℕ)
    → IsSound s next num
    → IsSound s next (remove num msg_id msg_num)
remove-IsSound s next num msg_id msg_num h = record {
  entries =
      All-map _ (EntryOk s next) (remove num msg_id msg_num) (λ e (p, b). p)
        (All-remove (EntryOk s next) num msg_id msg_num h.entries);
  consistent = h.consistent;
}

pub insert-IsSound :
    (s : Store) (next : ℕ) (num : List Entry) (msg_id : ℕ) (msg_num : Option ℕ) (c : ℕ)
    → EntryOk s next (record { msg_id = msg_id; msg_num = msg_num; sender = c })
    → IsSound s next num
    → IsSound s next (insert num msg_id msg_num c)
unfolding insert
insert-IsSound s next num msg_id msg_num c e h =
    let rest = remove-IsSound s next num msg_id msg_num h in
    record { entries = (e, rest.entries); consistent = rest.consistent }

-- An error tells nothing of numbers.
pub send_err-IsSound :
    (s : Store) (next : ℕ) (num : List Entry) (c : ℕ) (x : Error)
    → IsSound s next num
    → IsSound (send s c (err x)) next num
send_err-IsSound s next num c x h = record {
  entries =
      All-map (EntryOk s next) (EntryOk (send s c (err x)) next) num
        (λ e (p, l). (
          send-cases (IsEntryOf e) s c (err x) e.sender p
              (λ i o. err-IsEntryOf e (s c) x (subst (λ k. IsEntryOf e (s k)) i p)),
          l,
        ))
        h.entries;
  consistent = λ j.
      send-cases IsConsistent s c (err x) j (h.consistent j)
        (λ i o. err-IsConsistent (s c) x (h.consistent c));
}

pub broadcast_err-IsConsistent :
    (s : Store) (num : List Entry) (x : Error)
    → ((c : ℕ) → IsConsistent (s c))
    → (c : ℕ) → IsConsistent (broadcast s num (err x) c)
unfolding broadcast
broadcast_err-IsConsistent s [] x h = h
broadcast_err-IsConsistent s (e ∷ es) x h =
    broadcast_err-IsConsistent (send s e.sender (err x)) es x (λ j.
      send-cases IsConsistent s e.sender (err x) j (h j)
        (λ i o. err-IsConsistent (s e.sender) x (h e.sender)))

-- A message for a channel of its number.
pub send_ok-IsSound :
    (s : Store) (next : ℕ) (num : List Entry) (c : ℕ) (m : Bc)
    → (s c).closed ≡ false
    → IsEntryOf (record { msg_id = m.meta.msg_id; msg_num = some m.meta.msg_num; sender = c }) (s c)
    → IsSound s next num
    → IsSound (send s c (ok m)) next num
send_ok-IsSound s next num c m o (inl gone) h = cc
send_ok-IsSound s next num c m o (inr (i, k)) h = record {
  entries =
      All-map (EntryOk s next) (EntryOk (send s c (ok m)) next) num
        (λ e (p, l). (
          send-cases (IsEntryOf e) s c (ok m) e.sender p (λ j _.
              ok-IsEntryOf e (s c) m m.meta.msg_num (sym k) (subst (λ k. IsEntryOf e (s k)) j p)),
          l,
        ))
        h.entries;
  consistent = λ j.
      send-cases IsConsistent s c (ok m) j (h.consistent j)
        (λ _ _. ok-IsConsistent (s c) m i (sym k) (h.consistent c));
}
