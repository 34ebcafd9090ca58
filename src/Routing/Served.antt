-- ===== src/Routing/Served.antt =====
-- The loop of crates/core/src/bc_protocol/connection/bcconn.rs and the subscriptions of bcsub.rs.
use neolink.Base.{
  ℕ, ◌+◌, ◌≡◌, ◌⊎◌, refl, sym, ◌∙◌, arith, inl, inr, ◌==◌, ==_self, true, Option, some, none, List,
  [], ◌∷◌, All, if-cases,
}
use neolink.Bc.Model.{Bc}
use neolink.Routing.{
  Error, Reply, ok, err, update, Poller, get, new_channel, subscribe, add_channel, handle,
  place_handler, poll, PollCommand, bc, add_handler, remove_handler, add_subscriber, disconnect,
  find_handler, simultaneous_subscription, new_poller, continue, run, recv, recv_each, clean_up,
  close_receivers,
}
use neolink.Routing.Consistent.{
  IsConsistent, IsEntryOf, IsOneOf, key_of, messages, or_first, update-cases,
}
use neolink.Routing.Entries.{All-map}
use neolink.Routing.Numbers.{
  EntryOk, close_receivers-IsSound, retain_open-IsSound, insert-IsSound, send_err-IsSound,
  broadcast_err-IsConsistent,
}
use neolink.Routing.Upgrade.{Sound, route-Sound}

add_channel-Sound :
    (p : Poller) (msg_id : ℕ) (msg_num : Option ℕ) → Sound p → Sound (add_channel p msg_id msg_num)
unfolding add_channel
add_channel-Sound p msg_id msg_num h =
    let made = new_channel msg_id msg_num in
    record {
      entries =
          All-map (EntryOk p.channels p.next_channel)
            (EntryOk (update p.channels p.next_channel made) (p.next_channel + 1)) p.num
            (λ e (q, l). (
              update-cases (IsEntryOf e) p.channels p.next_channel made e.sender q
                  (λ i. let clash : ⊥ = omega (arith, i, l) in elim clash [ ]),
              omega (arith, l),
            ))
            h.entries;
      consistent = λ j.
          update-cases IsConsistent p.channels p.next_channel made j (h.consistent j) (λ i. tt);
    }

asked_key : (o : Option ℕ) → o ≡ or_first o []
asked_key none = refl
asked_key (some n) = refl

made-EntryOk :
    (p : Poller) (msg_id : ℕ) (msg_num : Option ℕ)
    → EntryOk
        (add_channel p msg_id msg_num).channels
        (add_channel p msg_id msg_num).next_channel
        (record { msg_id = msg_id; msg_num = msg_num; sender = p.next_channel })
unfolding add_channel update
made-EntryOk p msg_id msg_num =
    (rw (==_self p.next_channel) (inr (refl, asked_key msg_num)), omega arith)

subscribe-Sound :
    (p : Poller) (msg_id : ℕ) (msg_num : Option ℕ) (tx : ℕ) (o : Option ℕ)
    → EntryOk p.channels p.next_channel (record { msg_id = msg_id; msg_num = msg_num; sender = tx })
    → Sound p
    → Sound (subscribe p msg_id msg_num tx o)
unfolding subscribe
subscribe-Sound p msg_id msg_num tx none e h =
    insert-IsSound p.channels p.next_channel p.num msg_id msg_num tx e h
subscribe-Sound p msg_id msg_num tx (some sender) e h =
    if-cases Sound (p.channels sender).closed _ _
      (λ b. insert-IsSound p.channels p.next_channel p.num msg_id msg_num tx e h)
      (λ b.
        send_err-IsSound p.channels p.next_channel p.num tx (simultaneous_subscription msg_num) h)

place_handler-Sound :
    (p : Poller) (msg_id handler : ℕ) (o : Option ℕ)
    → Sound p
    → Sound (place_handler p msg_id handler o).0
place_handler-Sound p msg_id handler none h = h
place_handler-Sound p msg_id handler (some other) h = h

handle-Sound : (p : Poller) (command : PollCommand) → Sound p → Sound (handle p command).0
unfolding handle
handle-Sound p (bc (ok m)) h = route-Sound p m (find_handler p.id m.meta.msg_id) h
handle-Sound p (bc (err e)) h = record {
  entries = tt;
  consistent = broadcast_err-IsConsistent p.channels p.num e h.consistent;
}
handle-Sound p (add_handler msg_id handler) h =
    place_handler-Sound p msg_id handler (find_handler p.id msg_id) h
handle-Sound p (remove_handler msg_id) h = h
handle-Sound p (add_subscriber msg_id msg_num) h =
    let q = add_channel p msg_id msg_num in
    subscribe-Sound q msg_id msg_num p.next_channel (get q.num msg_id msg_num)
      (made-EntryOk p msg_id msg_num) (add_channel-Sound p msg_id msg_num h)
handle-Sound p disconnect h = h

poll-Sound :
    (p : Poller) (gone going : List ℕ) (command : PollCommand)
    → Sound p
    → Sound (poll p gone going command).0
unfolding poll clean_up
poll-Sound p gone going command h =
    let left = close_receivers-IsSound p.channels p.next_channel p.num gone h in
    let cleaned = retain_open-IsSound _ _ p.next_channel p.num left in
    handle-Sound _ command
      (close_receivers-IsSound (close_receivers p.channels gone) p.next_channel _ going cleaned)

continue-Sound :
    (r : Poller × Option Error) (rest : Poller → Poller)
    → Sound r.0
    → ((q : Poller) → Sound q → Sound (rest q))
    → Sound (continue r rest)
continue-Sound (p, none) rest h f = f p h
continue-Sound (p, some e) rest h f = h

run-Sound :
    (p : Poller) (commands : List (List ℕ × List ℕ × PollCommand))
    → Sound p
    → Sound (run p commands)
unfolding run
run-Sound p [] h = h
run-Sound p ((gone, going, command) ∷ rest) h =
    continue-Sound (poll p gone going command) (λ q. run q rest) (poll-Sound p gone going command h)
      (λ q g. run-Sound q rest g)

some-same : (a b : ℕ) → some a ≡ some b → a ≡ b
some-same a b e = cc

asked_or_none : (o : Option ℕ) (ms : List Bc) → (o ≡ none) ⊎ (o ≡ or_first o ms)
asked_or_none none ms = inl refl
asked_or_none (some n) ms = inr refl

-- A subscription that knows no number, or that of the channel, is never surprised.
recv_consistent :
    (msg_id : ℕ) (key now : Option ℕ) (replies : List Reply)
    → (now ≡ none) ⊎ (now ≡ key)
    → All (IsOneOf msg_id key) (messages replies)
    → (learnt : Option ℕ) × (recv_each now replies ≡ some learnt)
unfolding recv_each recv
recv_consistent msg_id key now [] k h = (now, refl)
recv_consistent msg_id key now (err e ∷ replies) k h = recv_consistent msg_id key now replies k h
recv_consistent msg_id key none (ok m ∷ replies) k ((i, e), hs) =
    recv_consistent msg_id key (some m.meta.msg_num) replies (inr (sym e)) hs
recv_consistent msg_id key (some n) (ok m ∷ replies) (inl k) h = cc
recv_consistent msg_id key (some n) (ok m ∷ replies) (inr k) ((i, e), hs) =
    let same : (m.meta.msg_num == n) ≡ true = ground (arith, some-same n m.meta.msg_num (k ∙ e)) in
    rw same (recv_consistent msg_id key (some n) replies (inr k) hs)

-- Whatever the camera sends, whoever subscribes and whenever receivers go, all the messages that
-- are sent to a subscription have its id and one number, the one it asked for if it asked for one:
-- the assertion of `BcSubscription::recv` never fails.
pub run-IsConsistent :
    (commands : List (List ℕ × List ℕ × PollCommand)) (c : ℕ)
    → IsConsistent ((run new_poller commands).channels c)
      × ((learnt : Option ℕ) × (recv_each
              ((run new_poller commands).channels c).msg_num
              ((run new_poller commands).channels c).sent
            ≡ some learnt))
run-IsConsistent commands c =
    let sound = run-Sound new_poller commands (record { entries = tt; consistent = λ j. tt }) in
    let channel = (run new_poller commands).channels c in
    let consistent = sound.consistent c in
    (
      consistent,
      recv_consistent channel.msg_id (key_of channel) channel.msg_num channel.sent
          (asked_or_none channel.msg_num (messages channel.sent)) consistent,
    )
