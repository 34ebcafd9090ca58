-- ===== src/Transport/Source.antt =====
-- `UdpPayloadInner`: its state and the turns of its loop.
use neolink.Base.{
  ℕ, ◌+◌, ◌-◌, List, [], ◌∷◌, ◌++◌, length, Option, none, some, Bool, false, ltb, leb, ◌==◌,
  if◌then◌else◌, take, drop, zero, suc,
}
use neolink.Base.Words.{u32, Bytes, wrapping_sub_u32}
use neolink.Udp.Model.{UdpAck, UdpData, BcUdp, discovery, ack, data_packet, empty}
use neolink.Transport.Map.{contains_key, lookup, insert, remove, retain, max_key}
use neolink.Transport.Latency.{AckLatency, feed_ack, get_value}

-- `socket_in` and `thread_stream` are what has been fed to these channels, oldest first; each
-- may have been closed by its other end.
pub record Inner : Type 0 where
  pub camera_addr : ℕ
  pub ack_tx : UdpAck
  pub socket_in : List BcUdp
  pub socket_closed : Bool
  pub thread_stream : List Bytes
  pub stream_closed : Bool
  pub client_id : ℕ
  pub camera_id : ℕ
  pub packets_sent : ℕ
  pub packets_want : ℕ
  pub sent : List (ℕ × UdpData)
  pub recieved : List (ℕ × Bytes)
  pub ack_latency : AckLatency

unfoldable pub new : ℕ → ℕ → ℕ → Inner
new camera_addr client_id camera_id = record {
  camera_addr = camera_addr;
  ack_tx = empty camera_id;
  socket_in = [];
  socket_closed = false;
  thread_stream = [];
  stream_closed = false;
  client_id = client_id;
  camera_id = camera_id;
  packets_sent = 0;
  packets_want = 0;
  sent = [];
  recieved = [];
  ack_latency = record {
    current_values = [];
    last_recieve_time = none;
    display_value = 0;
    last_display_time = none;
  };
}

-- The loop over `first_missing`, on fuel.
unfoldable pub first_missing : ℕ → List (ℕ × Bytes) → ℕ → ℕ
first_missing zero m k = k
first_missing (suc fuel) m k =
    let rest = first_missing fuel m (u32 (k + 1)) in if contains_key k m then rest else k

-- `1` for each id received and `0` for each missing, of `n` ids from `k`.
unfoldable pub missing_ids : List (ℕ × Bytes) → ℕ → ℕ → Bytes
missing_ids m k zero = []
missing_ids m k (suc n) = (if contains_key k m then 1 else 0) ∷ missing_ids m (k + 1) n

unfoldable pub build_send_ack : Inner → UdpAck
build_send_ack s =
    let k = first_missing (length s.recieved) s.recieved s.packets_want in
    if ltb 0 s.packets_want
    then record {
      connection_id = s.camera_id;
      group_id = 0;
      packet_id = wrapping_sub_u32 k 1;
      maybe_latency = get_value s.ack_latency;
      payload = elim (max_key s.recieved) [
        | none ↦ []
        | some end ↦ missing_ids s.recieved k (u32 (end + 1) - k)
      ];
    }
    else empty s.camera_id

-- The loop over the payload of an acknowledgement.
unfoldable pub remove_acked : ℕ → ℕ → Bytes → List (ℕ × UdpData) → List (ℕ × UdpData)
remove_acked start idx [] sent = sent
remove_acked start idx (v ∷ vs) sent =
    remove_acked start (idx + 1) vs (if ltb 0 v then remove (u32 (start + 1 + idx)) sent else sent)

unfoldable pub forget_acked : UdpAck → List (ℕ × UdpData) → List (ℕ × UdpData)
forget_acked a sent =
    if a.packet_id == 0xffff_ffff
    then sent
    else remove_acked a.packet_id 0 a.payload (retain (λ k. ltb a.packet_id k) sent)

unfoldable pub handle_ack : ℕ → UdpAck → Inner → Inner
handle_ack now a s = record s {
  sent = forget_acked a s.sent;
  ack_latency = feed_ack now s.ack_latency;
}

pub data RunError : Type 0 where
  drop_sender : RunError
  none_recieved : RunError
  socket_gone : RunError
  stream_gone : RunError
  payload_dropped : RunError

-- An error keeps the state in which it was met.
pub data RunResult : Type 0 where
  ok : Inner → RunResult
  err : RunError → Inner → RunResult

unfoldable pub feed_socket : BcUdp → Inner → RunResult
feed_socket p s =
    if s.socket_closed
    then err socket_gone s
    else ok (record s { socket_in = s.socket_in ++ (p ∷ []) })

unfoldable pub and_then : RunResult → (Inner → RunResult) → RunResult
and_then (ok s) f = f s
and_then (err e s) f = err e s

unfoldable pub resend : List (ℕ × UdpData) → Inner → RunResult
resend [] s = ok s
resend ((k, d) ∷ m) s = and_then (feed_socket (data_packet d) s) (resend m)

abbrev pub mtu : ℕ
mtu = 1350

abbrev pub udpdata_header_size : ℕ
udpdata_header_size = 20

-- `item.chunks(n)`, on fuel.
unfoldable pub chunks : ℕ → ℕ → Bytes → List Bytes
chunks zero n item = []
chunks (suc fuel) n [] = []
chunks (suc fuel) n (b ∷ bs) = take n (b ∷ bs) ∷ chunks fuel n (drop n (b ∷ bs))

unfoldable pub send_chunk : Bytes → Inner → RunResult
send_chunk chunk s =
    let udp_data : UdpData = record {
      connection_id = s.camera_id;
      packet_id = s.packets_sent;
      payload = chunk;
    } in
    feed_socket (data_packet udp_data) (record s {
      packets_sent = u32 (s.packets_sent + 1);
      sent = insert s.packets_sent udp_data s.sent;
    })

unfoldable pub send_chunks : List Bytes → Inner → RunResult
send_chunks [] s = ok s
send_chunks (c ∷ cs) s = and_then (send_chunk c s) (send_chunks cs)

-- The ids of a heartbeat are only compared for the log.
unfoldable pub from_packet : ℕ → BcUdp → Inner → Inner
from_packet now (discovery d) s = s
from_packet now (ack a) s = if a.connection_id == s.client_id then handle_ack now a s else s
from_packet now (data_packet d) s =
    let stored : Inner = record s { recieved = insert d.packet_id d.payload s.recieved } in
    if d.connection_id == s.client_id
    then if leb s.packets_want d.packet_id
      then record stored { ack_tx = build_send_ack stored }
      else s
    else s

-- The branch of `select!` that is ready, with what it gives. A packet comes with its sender's
-- address and the time.
pub data Ready : Type 0 where
  resend_tick : Ready
  from_app : Option Bytes → Ready
  from_socket : Option (BcUdp × ℕ) → ℕ → Ready

unfoldable pub select : Ready → Inner → RunResult
select resend_tick s =
    and_then (resend s.sent s) (λ s'. ok (record s' { ack_tx = build_send_ack s' }))
select (from_app none) s = err drop_sender s
select (from_app (some item)) s =
    send_chunks (chunks (length item) (mtu - udpdata_header_size) item) s
select (from_socket none now) s = err none_recieved s
select (from_socket (some (packet, addr)) now) s =
    if addr == s.camera_addr then ok (from_packet now packet s) else ok s

-- The next packet, taken out of the buffer.
unfoldable pub take_next : Inner → Inner
take_next s = record s {
  packets_want = u32 (s.packets_want + 1);
  recieved = remove s.packets_want s.recieved;
}

unfoldable pub give : Bytes → Inner → Inner
give payload s = record s { thread_stream = s.thread_stream ++ (payload ∷ []) }

-- The loop that hands over what is next, on fuel.
unfoldable pub hand_over : ℕ → Inner → RunResult
hand_over zero s = ok s
hand_over (suc fuel) s = elim (lookup s.packets_want s.recieved) [
  | none ↦ ok s
  | some payload ↦
      let rest = hand_over fuel (give payload (take_next s)) in
      if s.stream_closed then err stream_gone (take_next s) else rest
]

unfoldable pub run : Ready → Inner → RunResult
run ready s = and_then (select ready s) (λ s'. hand_over (length s'.recieved) s')

-- The task of `UdpPayloadSource`: turn after turn, until an error.
unfoldable pub run_all : List Ready → Inner → RunResult
run_all [] s = ok s
run_all (r ∷ rs) s =
    let rest = and_then (run r s) (run_all rs) in
    if s.stream_closed then err payload_dropped s else rest
