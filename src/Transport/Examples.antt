-- ===== src/Transport/Examples.antt =====
-- The reliable layer at concrete packets.
use neolink.Base.{ℕ, ◌<◌, ◌≡◌, refl, arith, List, map, replicate, [], ◌∷◌, not, ◌&&◌, some, none}
use neolink.Base.Words.{Bytes}
use neolink.Udp.Model.{UdpData, data_packet}
use neolink.Transport.Map.{contains_key, lookup, insert, remove, max_key, retain}
use neolink.Transport.Latency.{
  AckLatency, get_value, feed_ack, update_display, average, receive_values, micros,
}
use neolink.Transport.Source.{
  Inner, RunResult, ok, err, Ready, from_app, from_socket, resend_tick, new, run, run_all, select,
  build_send_ack, forget_acked, and_then, from_packet, hand_over, take_next, give, first_missing,
  missing_ids, resend, remove_acked,
}
use neolink.Transport.Deliver.{Keeps, IsFrom, run-drained}
use neolink.Transport.Order.{run_all-Keeps}
use neolink.Transport.Ack.{has, forget_acked-build_send_ack}
use neolink.Transport.Chunks.{IsSent, select-IsSent}

-- What the camera sends under each id.
abbrev content : ℕ → Bytes
content k = k ∷ 7 ∷ []

abbrev from_camera : ℕ → Ready
from_camera k =
    from_socket
      (some
        (data_packet (record { connection_id = 82_000; packet_id = k; payload = content k }), 9))
      0

abbrev fresh : Inner
fresh = new 9 82_000 80

-- Packets out of order, one twice, and one from another address.
abbrev packets : List Ready
packets =
    from_camera 1
    ∷ from_camera 0
    ∷ resend_tick
    ∷ from_camera 0
    ∷ from_socket
        (some (data_packet (record { connection_id = 82_000; packet_id = 2; payload = [] }), 5)) 0
    ∷ from_camera 3
    ∷ []

abbrev as_sent : (k : ℕ) → k < 0xffff_ffff → IsFrom content k (content k)
as_sent k h = record { same = refl; named = h }

run_all-Keeps_example : Keeps 9 82_000 content (run_all packets (new 9 82_000 80))
run_all-Keeps_example = run_all-Keeps 9 82_000 content packets 80 (
  (λ a c. as_sent 1 (omega arith)),
  (
    (λ a c. as_sent 0 (omega arith)),
    (
      tt,
      (
        (λ a c. as_sent 0 (omega arith)),
        ((λ a c. ground (arith, a)), ((λ a c. as_sent 3 (omega arith)), tt)),
      ),
    ),
  ),
)

abbrev after : RunResult → Inner
after (ok s) = s
after (err e s) = s

abbrev reader : Inner
reader = after (run_all packets fresh)

-- The first two packets are handed over, the fourth is kept.
reader_runs :
    (reader.thread_stream ≡ content 0 ∷ content 1 ∷ []) × (map (λ e. e.0) reader.recieved ≡ 3 ∷ [])
unfolding run_all run and_then select from_packet new hand_over take_next give lookup insert remove
    resend build_send_ack first_missing missing_ids contains_key max_key
reader_runs = (refl, refl)

abbrev later : Inner
later = after (run (from_camera 1) (after (run (from_camera 0) fresh)))

run-drained_example : lookup later.packets_want later.recieved ≡ none
unfolding run and_then select from_packet new hand_over take_next give lookup insert remove
    build_send_ack first_missing missing_ids contains_key max_key
run-drained_example = run-drained (from_camera 1) (after (run (from_camera 0) fresh)) later refl

-- A sender with three packets, and a receiver that has the first and the third.
abbrev held : ℕ → UdpData
held k = record { connection_id = 80; packet_id = k; payload = [] }

abbrev three : List (ℕ × UdpData)
three = (0, held 0) ∷ (1, held 1) ∷ (2, held 2) ∷ []

abbrev gap : Inner
gap = record fresh { packets_want = 1; recieved = (2, []) ∷ [] }

forget_acked_runs : forget_acked (build_send_ack gap) three ≡ (1, held 1) ∷ []
unfolding forget_acked remove_acked retain build_send_ack first_missing missing_ids contains_key
    max_key remove
forget_acked_runs = refl

forget_acked-build_send_ack_example :
    contains_key 2 (forget_acked (build_send_ack gap) three)
    ≡ (contains_key 2 three && not (has gap 2))
forget_acked-build_send_ack_example =
    forget_acked-build_send_ack gap three 2 (omega arith) (omega arith) (omega arith, tt)

select-IsSent_example :
    (cs : List Bytes) × ((s' : Inner) × ((select (from_app (some (replicate 2000 7))) fresh ≡ ok s')
        × IsSent (replicate 2000 7) cs fresh s'))
unfolding new
select-IsSent_example = select-IsSent (replicate 2000 7) fresh refl

abbrev gaps_of_three : AckLatency
gaps_of_three = record {
  current_values = 9_000 ∷ 12_000 ∷ [];
  last_recieve_time = some 1_990_000_000;
  display_value = 400;
  last_display_time = some 900_000_000;
}

feed_ack_runs : get_value (feed_ack 2_000_000_000 gaps_of_three) ≡ 10_333
unfolding feed_ack get_value update_display average receive_values micros
feed_ack_runs = refl
