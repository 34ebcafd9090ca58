-- ===== src/Routing.antt =====
-- crates/core/src/bc_protocol/connection/bcconn.rs and bcsub.rs: which subscriber of a connection
-- gets a message. A channel stands in a store under its number: the sender that the poller holds
-- and the receiver of the subscription are that number. The poller takes one command at a time; a
-- subscription is made when its command is taken. Sends are taken to complete.
pub mod Consistent
pub mod Entries
pub mod Numbers
pub mod Upgrade
pub mod Served
pub mod Delivery
mod Examples
use neolink.Base.{
  ℕ, ◌+◌, ◌==◌, Bool, true, false, not, ◌&&◌, Option, some, none, List, [], ◌∷◌, ◌++◌,
  if◌then◌else◌,
}
use neolink.Bc.Model.{Bc}

-- The errors that the poller makes itself, and the others by a number.
pub data Error : Type 0 where
  simultaneous_subscription : Option ℕ → Error
  simultaneous_subscription_id : ℕ → Error
  connection_shutdown : Error
  other_error : ℕ → Error

-- `Result<Bc>`
pub data Reply : Type 0 where
  ok : Bc → Reply
  err : Error → Reply

-- A channel made for a subscription to `msg_id` and maybe a number: what has been sent into it, the
-- oldest first, and whether its receiver has gone.
pub record Channel : Type 0 where
  pub msg_id : ℕ
  pub msg_num : Option ℕ
  pub sent : List Reply
  pub closed : Bool

abbrev pub Store : Type 0
Store = ℕ → Channel

unfoldable pub update : Store → ℕ → Channel → Store
update s c channel j = if j == c then channel else s j

-- An entry of the map of the numbered subscribers.
pub record Entry : Type 0 where
  pub msg_id : ℕ
  pub msg_num : Option ℕ
  pub sender : ℕ

-- The two maps, the channels, and the calls of handlers that have been started. `next_channel` is
-- the number that the next channel gets.
pub record Poller : Type 0 where
  pub num : List Entry
  pub id : List (ℕ × ℕ)
  pub channels : Store
  pub next_channel : ℕ
  pub calls : List (ℕ × Bc)

abbrev pub num_eq : Option ℕ → Option ℕ → Bool
num_eq none none = true
num_eq (some a) (some b) = a == b
num_eq _ _ = false

abbrev pub is_key : ℕ → Option ℕ → Entry → Bool
is_key msg_id msg_num e = (e.msg_id == msg_id) && num_eq e.msg_num msg_num

unfoldable pub get : List Entry → ℕ → Option ℕ → Option ℕ
get [] msg_id msg_num = none
get (e ∷ es) msg_id msg_num =
    if is_key msg_id msg_num e then some e.sender else get es msg_id msg_num

unfoldable pub remove : List Entry → ℕ → Option ℕ → List Entry
remove [] msg_id msg_num = []
remove (e ∷ es) msg_id msg_num =
    let rest = remove es msg_id msg_num in if is_key msg_id msg_num e then rest else e ∷ rest

unfoldable pub insert : List Entry → ℕ → Option ℕ → ℕ → List Entry
insert es msg_id msg_num sender =
    record { msg_id = msg_id; msg_num = msg_num; sender = sender } ∷ remove es msg_id msg_num

unfoldable pub retain_open : Store → List Entry → List Entry
retain_open s [] = []
retain_open s (e ∷ es) =
    let rest = retain_open s es in if (s e.sender).closed then rest else e ∷ rest

-- The clean-up before each command.
unfoldable pub clean_up : Poller → Poller
clean_up p = record p { num = retain_open p.channels p.num }

-- `sender.send`: nothing is kept of what is sent to a receiver that has gone.
unfoldable pub send : Store → ℕ → Reply → Store
send s c reply =
    if (s c).closed then s else update s c (record (s c) { sent = (s c).sent ++ (reply ∷ []) })

abbrev pub find_handler : List (ℕ × ℕ) → ℕ → Option ℕ
find_handler [] msg_id = none
find_handler ((i, h) ∷ hs) msg_id = if i == msg_id then some h else find_handler hs msg_id

abbrev pub drop_handler : List (ℕ × ℕ) → ℕ → List (ℕ × ℕ)
drop_handler [] msg_id = []
drop_handler ((i, h) ∷ hs) msg_id =
    let rest = drop_handler hs msg_id in if i == msg_id then rest else (i, h) ∷ rest

-- The sender under a key, if its receiver is there.
abbrev pub open_one : Store → Option ℕ → Option ℕ
open_one s none = none
open_one s (some c) = if (s c).closed then none else some c

-- Where no sender has the number of the message: the one that waits for a number is given it.
unfoldable pub upgrade : Poller → Bc → Option ℕ → Poller
upgrade p response (some sender) =
    let msg_id = response.meta.msg_id in
    record p {
      num = insert (remove p.num msg_id none) msg_id (some response.meta.msg_num) sender;
      channels = send p.channels sender (ok response);
    }
upgrade p response none = record p {
  num = remove p.num response.meta.msg_id (some response.meta.msg_num);
}

unfoldable pub dispatch : Poller → Bc → Option ℕ → Poller
dispatch p response (some sender) = record p { channels = send p.channels sender (ok response) }
dispatch p response none = upgrade p response (get p.num response.meta.msg_id none)

unfoldable pub route : Poller → Bc → Option ℕ → Poller
route p response (some handler) = record p { calls = p.calls ++ ((handler, response) ∷ []) }
route p response none =
    dispatch p response
      (open_one p.channels (get p.num response.meta.msg_id (some response.meta.msg_num)))

unfoldable pub broadcast : Store → List Entry → Reply → Store
broadcast s [] reply = s
broadcast s (e ∷ es) reply = broadcast (send s e.sender reply) es reply

pub data PollCommand : Type 0 where
  bc : Reply → PollCommand
  add_handler : ℕ → ℕ → PollCommand
  remove_handler : ℕ → PollCommand
  add_subscriber : ℕ → Option ℕ → PollCommand
  disconnect : PollCommand

-- The channel that a subscriber has made.
abbrev pub new_channel : ℕ → Option ℕ → Channel
new_channel msg_id msg_num = record {
  msg_id = msg_id;
  msg_num = msg_num;
  sent = [];
  closed = false;
}

-- The new sender takes a free place, or that of a receiver that has gone; else it is refused.
unfoldable pub subscribe : Poller → ℕ → Option ℕ → ℕ → Option ℕ → Poller
subscribe p msg_id msg_num tx none = record p { num = insert p.num msg_id msg_num tx }
subscribe p msg_id msg_num tx (some sender) =
    if (p.channels sender).closed
    then record p { num = insert p.num msg_id msg_num tx }
    else record p { channels = send p.channels tx (err (simultaneous_subscription msg_num)) }

unfoldable pub add_channel : Poller → ℕ → Option ℕ → Poller
add_channel p msg_id msg_num = record p {
  channels = update p.channels p.next_channel (new_channel msg_id msg_num);
  next_channel = p.next_channel + 1;
}

-- There is one handler for an id at most.
abbrev pub place_handler : Poller → ℕ → ℕ → Option ℕ → Poller × Option Error
place_handler p msg_id handler none = (record p { id = (msg_id, handler) ∷ p.id }, none)
place_handler p msg_id handler (some other) = (p, some (simultaneous_subscription_id msg_id))

-- The command, with the error that ends the loop.
unfoldable pub handle : Poller → PollCommand → Poller × Option Error
handle p (bc (ok response)) = (route p response (find_handler p.id response.meta.msg_id), none)
handle p (bc (err e)) =
    (record p { num = []; id = []; channels = broadcast p.channels p.num (err e) }, some e)
handle p (add_handler msg_id handler) = place_handler p msg_id handler (find_handler p.id msg_id)
handle p (remove_handler msg_id) = (record p { id = drop_handler p.id msg_id }, none)
handle p (add_subscriber msg_id msg_num) =
    let q = add_channel p msg_id msg_num in
    (subscribe q msg_id msg_num p.next_channel (get q.num msg_id msg_num), none)
handle p disconnect = (p, some connection_shutdown)

-- Receivers go at any time, also between the clean-up and the command.
unfoldable pub close_receivers : Store → List ℕ → Store
close_receivers s [] = s
close_receivers s (c ∷ cs) = close_receivers (update s c (record (s c) { closed = true })) cs

abbrev pub drop_receivers : Poller → List ℕ → Poller
drop_receivers p cs = record p { channels = close_receivers p.channels cs }

-- One round of the loop; `gone` are the receivers that go before it and `going` during it.
unfoldable pub poll : Poller → List ℕ → List ℕ → PollCommand → Poller × Option Error
poll p gone going command = handle (drop_receivers (clean_up (drop_receivers p gone)) going) command

abbrev pub new_poller : Poller
new_poller = record {
  num = [];
  id = [];
  channels = λ _. new_channel 0 none;
  next_channel = 0;
  calls = [];
}

-- `BcSubscription::recv` of what has come: the number that the subscription knows, and the reply,
-- or the failure of the assertion.
pub data Received : Type 0 where
  received : Option ℕ → Reply → Received
  assertion_failed : Received

unfoldable pub recv : Option ℕ → Reply → Received
recv msg_num (err e) = received msg_num (err e)
recv none (ok m) = received (some m.meta.msg_num) (ok m)
recv (some n) (ok m) = if m.meta.msg_num == n then received (some n) (ok m) else assertion_failed

abbrev pub after_recv : Received → (Option ℕ → Option (Option ℕ)) → Option (Option ℕ)
after_recv (received learnt reply) rest = rest learnt
after_recv assertion_failed rest = none

-- None where the assertion fails, else the number known after all that has come.
unfoldable pub recv_each : Option ℕ → List Reply → Option (Option ℕ)
recv_each msg_num [] = some msg_num
recv_each msg_num (reply ∷ replies) =
    after_recv (recv msg_num reply) (λ learnt. recv_each learnt replies)

abbrev pub continue : Poller × Option Error → (Poller → Poller) → Poller
continue (p, none) rest = rest p
continue (p, some e) rest = p

-- The loop, which an error ends.
unfoldable pub run : Poller → List (List ℕ × List ℕ × PollCommand) → Poller
run p [] = p
run p ((gone, going, command) ∷ rest) = continue (poll p gone going command) (λ q. run q rest)
