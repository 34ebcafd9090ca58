-- ===== src/Routing/Examples.antt =====
-- A connection with two subscribers.
use neolink.Base.{ℕ, ◌≡◌, refl, Option, some, none, List, [], ◌∷◌, replicate}
use neolink.Bc.Model.{Bc, legacy_msg, unknown_msg}
use neolink.Routing.{
  Poller, PollCommand, bc, add_subscriber, ok, err, other_error, simultaneous_subscription,
  new_poller, run, recv_each, poll, handle, route, dispatch, upgrade, subscribe, add_channel,
  clean_up, retain_open, close_receivers, get, insert, remove, send, update,
}
use neolink.Routing.Consistent.{IsConsistent}
use neolink.Routing.Served.{run-IsConsistent}
use neolink.Routing.Delivery.{handle_error, with_replies, count}

abbrev message : ℕ → ℕ → Bc
message msg_id msg_num = record {
  meta = record {
    msg_id = msg_id;
    channel_id = 0;
    stream_type = 0;
    response_code = 200;
    msg_num = msg_num;
    class = 0;
  };
  body = legacy_msg unknown_msg;
}

-- The second waits for a number of its own, and gets the one of the first message that has none.
abbrev commands : List (List ℕ × List ℕ × PollCommand)
commands =
    ([], [], add_subscriber 109 (some 4))
    ∷ ([], [], add_subscriber 109 none)
    ∷ ([], [], bc (ok (message 109 7)))
    ∷ ([], [], bc (ok (message 109 4)))
    ∷ ([], [], bc (ok (message 109 7)))
    ∷ ([], [], add_subscriber 109 (some 7))
    ∷ []

abbrev connection : Poller
connection = run new_poller commands

sorted_out : (connection.channels 1).sent ≡ ok (message 109 7) ∷ ok (message 109 7) ∷ []
unfolding run poll handle route dispatch upgrade subscribe add_channel clean_up retain_open
    close_receivers get insert remove send update
sorted_out = refl

refused : (connection.channels 2).sent ≡ err (simultaneous_subscription (some 7)) ∷ []
unfolding run poll handle route dispatch upgrade subscribe add_channel clean_up retain_open
    close_receivers get insert remove send update
refused = refl

run-IsConsistent_example :
    IsConsistent (connection.channels 1)
    × ((learnt : Option ℕ) × (recv_each (connection.channels 1).msg_num (connection.channels 1).sent
          ≡ some learnt))
run-IsConsistent_example = run-IsConsistent commands 1

handle_error_example :
    ((handle connection (bc (err (other_error 3)))).1 ≡ some (other_error 3))
    × ((handle connection (bc (err (other_error 3)))).0.num ≡ [])
    × ((handle connection (bc (err (other_error 3)))).0.id ≡ [])
    × ((handle connection (bc (err (other_error 3)))).0.channels 0
        ≡ with_replies
            (connection.channels 0)
            (replicate (count 0 connection.num) (err (other_error 3))))
unfolding run poll handle route dispatch upgrade subscribe add_channel clean_up retain_open
    close_receivers get insert remove send update
handle_error_example = handle_error connection (other_error 3) 0 refl
