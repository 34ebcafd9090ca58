-- ===== src/Transport/Order.antt =====
-- Whatever the order in which the camera's packets come, and whatever else comes between them.
use neolink.Base.{ℕ, ◌≡◌, refl, arith, List, [], ◌∷◌, none, some, if-cases, leb, ◌==◌, All, length}
use neolink.Base.Words.{Bytes}
use neolink.Udp.Model.{BcUdp, UdpData, discovery, ack, data_packet}
use neolink.Transport.Map.{insert-Entries}
use neolink.Transport.Source.{
  Inner, new, RunResult, ok, err, Ready, resend_tick, from_app, from_socket, feed_socket, and_then,
  resend, send_chunk, send_chunks, from_packet, handle_ack, select, run, run_all,
}
use neolink.Transport.Deliver.{IsFrom, Session, Keeps, hand_over-Keeps}

module _ (camera client : ℕ) (content : ℕ → Bytes) where
  -- What a data packet of the camera's to this client holds is what the camera sent under its id.
  abbrev pub IsHonest : Ready → Type 0
  IsHonest (from_socket (some (data_packet d, addr)) now) =
      addr ≡ camera → d.connection_id ≡ client → IsFrom content d.packet_id d.payload
  IsHonest _ = Unit {0}

  feed_socket-Keeps :
      (p : BcUdp) (s : Inner)
      → Session camera client content s
      → Keeps camera client content (feed_socket p s)
  unfolding feed_socket
  feed_socket-Keeps p s h =
      if-cases (Keeps camera client content) s.socket_closed _ _
        (λ c. (s.packets_want, h.in_order.ordered))
        (λ o. record {
          to_camera = h.to_camera;
          to_client = h.to_client;
          in_order = record { ordered = h.in_order.ordered; held = h.in_order.held };
        })

  and_then-Keeps :
      (r : RunResult) (f : Inner → RunResult)
      → Keeps camera client content r
      → ((s : Inner) → Session camera client content s → Keeps camera client content (f s))
      → Keeps camera client content (and_then r f)
  unfolding and_then
  and_then-Keeps (ok s) f h k = k s h
  and_then-Keeps (err e s) f h k = h

  resend-Keeps :
      (m : List (ℕ × UdpData)) (s : Inner)
      → Session camera client content s
      → Keeps camera client content (resend m s)
  unfolding resend
  resend-Keeps [] s h = h
  resend-Keeps ((k, d) ∷ m) s h =
      and_then-Keeps (feed_socket (data_packet d) s) (resend m) (feed_socket-Keeps _ s h)
        (resend-Keeps m)

  send_chunk-Keeps :
      (c : Bytes) (s : Inner)
      → Session camera client content s
      → Keeps camera client content (send_chunk c s)
  unfolding send_chunk
  send_chunk-Keeps c s h = feed_socket-Keeps _ _ (record {
    to_camera = h.to_camera;
    to_client = h.to_client;
    in_order = record { ordered = h.in_order.ordered; held = h.in_order.held };
  })

  send_chunks-Keeps :
      (cs : List Bytes) (s : Inner)
      → Session camera client content s
      → Keeps camera client content (send_chunks cs s)
  unfolding send_chunks
  send_chunks-Keeps [] s h = h
  send_chunks-Keeps (c ∷ cs) s h =
      and_then-Keeps (send_chunk c s) (send_chunks cs) (send_chunk-Keeps c s h)
        (send_chunks-Keeps cs)

  from_data-Session :
      (now : ℕ) (d : UdpData) (s : Inner)
      → (d.connection_id ≡ client → IsFrom content d.packet_id d.payload)
      → Session camera client content s
      → Session camera client content (from_packet now (data_packet d) s)
  unfolding from_packet
  from_data-Session now d s f h =
      if-cases (Session camera client content) (d.connection_id == s.client_id) _ _
        (λ e.
          if-cases (Session camera client content) (leb s.packets_want d.packet_id) _ _
            (λ n. record {
              to_camera = h.to_camera;
              to_client = h.to_client;
              in_order = record {
                ordered = h.in_order.ordered;
                held =
                    insert-Entries (IsFrom content) d.packet_id d.payload s.recieved
                      (f (ground (arith, h.to_client))) h.in_order.held;
              };
            })
            (λ n. h))
        (λ n. h)

  from_packet-Session :
      (now : ℕ) (p : BcUdp) (addr : ℕ) (s : Inner)
      → IsHonest (from_socket (some (p, addr)) now)
      → addr ≡ camera
      → Session camera client content s
      → Session camera client content (from_packet now p s)
  unfolding from_packet handle_ack
  from_packet-Session now (discovery d) addr s f e h = h
  from_packet-Session now (ack a) addr s f e h =
      if-cases (Session camera client content) (a.connection_id == s.client_id) _ _
        (λ c. record {
          to_camera = h.to_camera;
          to_client = h.to_client;
          in_order = record { ordered = h.in_order.ordered; held = h.in_order.held };
        })
        (λ c. h)
  from_packet-Session now (data_packet d) addr s f e h = from_data-Session now d s (f e) h

  select-Keeps :
      (r : Ready) (s : Inner)
      → IsHonest r
      → Session camera client content s
      → Keeps camera client content (select r s)
  unfolding select
  select-Keeps resend_tick s f h =
      and_then-Keeps (resend s.sent s) _ (resend-Keeps s.sent s h) (λ s' k. record {
        to_camera = k.to_camera;
        to_client = k.to_client;
        in_order = record { ordered = k.in_order.ordered; held = k.in_order.held };
      })
  select-Keeps (from_app none) s f h = (s.packets_want, h.in_order.ordered)
  select-Keeps (from_app (some item)) s f h = send_chunks-Keeps _ s h
  select-Keeps (from_socket none now) s f h = (s.packets_want, h.in_order.ordered)
  select-Keeps (from_socket (some (p, addr)) now) s f h =
      if-cases (Keeps camera client content) (addr == s.camera_addr) _ _
        (λ e. from_packet-Session now p addr s f (ground (arith, h.to_camera)) h) (λ e. h)

  run-Keeps :
      (r : Ready) (s : Inner)
      → IsHonest r
      → Session camera client content s
      → Keeps camera client content (run r s)
  unfolding run
  run-Keeps r s f h =
      and_then-Keeps (select r s) _ (select-Keeps r s f h)
        (λ s' k. hand_over-Keeps camera client content (length s'.recieved) s' k)

module _ (camera client : ℕ) (content : ℕ → Bytes) where
  run_all-Session :
      (rs : List Ready) (s : Inner)
      → All (IsHonest camera client content) rs
      → Session camera client content s
      → Keeps camera client content (run_all rs s)
  unfolding run_all
  run_all-Session [] s a h = h
  run_all-Session (r ∷ rs) s (f, a) h =
      if-cases (Keeps camera client content) s.stream_closed _ _
        (λ c. (s.packets_want, h.in_order.ordered))
        (λ o.
          and_then-Keeps camera client content (run r s) _ (run-Keeps camera client content r s f h)
            (λ s' k. run_all-Session rs s' a k))

  -- From a new connection, whatever comes ready and in whatever order, if each data packet of
  -- the camera's to this client holds what the camera sent under its id, an id below
  -- `0xffff_ffff`: the application has been handed exactly the payloads of the ids below
  -- `packets_want`, each once and in order; after an error, those below some id.
  pub run_all-Keeps :
      (rs : List Ready) (camera_id : ℕ)
      → All (IsHonest camera client content) rs
      → Keeps camera client content (run_all rs (new camera client camera_id))
  unfolding new
  run_all-Keeps rs camera_id a = run_all-Session rs (new camera client camera_id) a (record {
    to_camera = refl;
    to_client = refl;
    in_order = record { ordered = refl; held = tt };
  })
