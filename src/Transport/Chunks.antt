-- ===== src/Transport/Chunks.antt =====
-- What the application writes goes to the camera in numbered pieces.
use neolink.Base.{
  ℕ, ◌+◌, ◌≤◌, ◌<◌, ◌≡◌, refl, sym, ap, ◌∙◌, arith, List, [], ◌∷◌, ◌++◌, length, Option,
  if◌then◌else◌, false, ◌==◌, zero, suc, some, take, drop, append_assoc, append-nil,
  take-append-drop, length-take, length-drop, All, if-false,
}
use neolink.Base.Words.{u32, Bytes}
use neolink.Udp.Model.{BcUdp, UdpData, data_packet}
use neolink.Transport.Map.{lookup, insert, lookup-insert}
use neolink.Transport.Source.{
  Inner, ok, chunks, send_chunk, send_chunks, feed_socket, and_then, select, from_app,
}

abbrev pub join : List Bytes → Bytes
join [] = []
join (c ∷ cs) = c ++ join cs

join-chunks :
    (fuel n : ℕ) (item : Bytes) → 0 < n → length item ≤ fuel → join (chunks fuel n item) ≡ item
unfolding chunks
join-chunks zero n [] p h = refl
join-chunks zero n (b ∷ bs) p h = ground arith
join-chunks (suc fuel) n [] p h = refl
join-chunks (suc fuel) n (b ∷ bs) p h =
    ap (λ t. take n (b ∷ bs) ++ t)
      (join-chunks fuel n (drop n (b ∷ bs)) p (omega (arith, length-drop n (b ∷ bs))))
    ∙ take-append-drop n (b ∷ bs)

-- A piece is not empty and fits in a packet.
pub record Fits (n : ℕ) (c : Bytes) : Type 0 where
  pub some_bytes : 0 < length c
  pub not_more : length c ≤ n

chunks-Fits : (fuel n : ℕ) (item : Bytes) → 0 < n → All (Fits n) (chunks fuel n item)
unfolding chunks
chunks-Fits zero n item p = tt
chunks-Fits (suc fuel) n [] p = tt
chunks-Fits (suc fuel) n (b ∷ bs) p = (
  record {
    some_bytes = omega (arith, length-take n (b ∷ bs));
    not_more = omega (arith, length-take n (b ∷ bs));
  },
  chunks-Fits fuel n (drop n (b ∷ bs)) p,
)

-- The packets for the pieces, numbered from `id`.
abbrev pub numbered : ℕ → ℕ → List Bytes → List BcUdp
numbered camera_id id [] = []
numbered camera_id id (c ∷ cs) =
    data_packet (record { connection_id = camera_id; packet_id = id; payload = c })
    ∷ numbered camera_id (u32 (id + 1)) cs

-- The packet that is held under the id `j` when the pieces have been sent with the numbers from
-- `id` on, where `old` is the one that was held before: the last piece with that number.
abbrev pub held : ℕ → ℕ → ℕ → List Bytes → Option UdpData → Option UdpData
held camera_id j id [] old = old
held camera_id j id (c ∷ cs) old = held camera_id j (u32 (id + 1)) cs (
    if id == j
    then some (record { connection_id = camera_id; packet_id = id; payload = c })
    else old)

-- The state after a piece has been sent.
unfoldable after_chunk : Bytes → Inner → Inner
after_chunk c s =
    let udp_data : UdpData = record {
      connection_id = s.camera_id;
      packet_id = s.packets_sent;
      payload = c;
    } in
    record s {
      socket_in = s.socket_in ++ (data_packet udp_data ∷ []);
      packets_sent = u32 (s.packets_sent + 1);
      sent = insert s.packets_sent udp_data s.sent;
    }

unfoldable after_chunks : List Bytes → Inner → Inner
after_chunks [] s = s
after_chunks (c ∷ cs) s = after_chunks cs (after_chunk c s)

send_chunk-after_chunk :
    (c : Bytes) (s : Inner) → s.socket_closed ≡ false → send_chunk c s ≡ ok (after_chunk c s)
unfolding send_chunk feed_socket after_chunk
send_chunk-after_chunk c s o = if-false s.socket_closed _ _ o

send_chunks-after_chunks :
    (cs : List Bytes) (s : Inner)
    → s.socket_closed ≡ false
    → send_chunks cs s ≡ ok (after_chunks cs s)
unfolding send_chunks and_then after_chunks after_chunk
send_chunks-after_chunks [] s o = refl
send_chunks-after_chunks (c ∷ cs) s o =
    ap (λ r. and_then r (send_chunks cs)) (send_chunk-after_chunk c s o)
    ∙ send_chunks-after_chunks cs (after_chunk c s) o

after_chunks-fed :
    (cs : List Bytes) (s : Inner)
    → (after_chunks cs s).socket_in ≡ s.socket_in ++ numbered s.camera_id s.packets_sent cs
unfolding after_chunks after_chunk
after_chunks-fed [] s = sym (append-nil s.socket_in)
after_chunks-fed (c ∷ cs) s = after_chunks-fed cs (after_chunk c s) ∙ append_assoc s.socket_in _ _

after_chunks-kept :
    (cs : List Bytes) (s : Inner) (j : ℕ)
    → lookup j (after_chunks cs s).sent ≡ held s.camera_id j s.packets_sent cs (lookup j s.sent)
unfolding after_chunks after_chunk
after_chunks-kept [] s j = refl
after_chunks-kept (c ∷ cs) s j =
    let packet : UdpData = record {
      connection_id = s.camera_id;
      packet_id = s.packets_sent;
      payload = c;
    } in
    after_chunks-kept cs (after_chunk c s) j
    ∙ ap (held s.camera_id j (u32 (s.packets_sent + 1)) cs)
        (lookup-insert s.sent j s.packets_sent packet)

-- The pieces `cs` of an item are numbered, fed to the socket and kept to be sent again.
pub record IsSent (item : Bytes) (cs : List Bytes) (s s' : Inner) : Type 0 where
  pub whole : join cs ≡ item
  pub sizes : All (Fits 1330) cs
  pub fed : s'.socket_in ≡ s.socket_in ++ numbered s.camera_id s.packets_sent cs
  pub kept : (j : ℕ) → lookup j s'.sent ≡ held s.camera_id j s.packets_sent cs (lookup j s.sent)

-- While the socket is open, what the application writes is cut into pieces of at least one and
-- at most 1330 bytes that make up the whole, which are sent under the next ids, in their order
-- and after what was sent before. The packet of each piece, as it was sent, is then held under
-- its id to be sent again, the last one where an id comes twice, and under every other id what was
-- held before.
pub select-IsSent :
    (item : Bytes) (s : Inner)
    → s.socket_closed ≡ false
    → (cs : List Bytes) × ((s' : Inner) × ((select (from_app (some item)) s ≡ ok s')
          × IsSent item cs s s'))
unfolding select
select-IsSent item s o =
    let cs = chunks (length item) 1330 item in
    (
      cs,
      (
        after_chunks cs s,
        (
          send_chunks-after_chunks cs s o,
          record {
            whole = join-chunks (length item) 1330 item (omega arith) (omega arith);
            sizes = chunks-Fits (length item) 1330 item (omega arith);
            fed = after_chunks-fed cs s;
            kept = after_chunks-kept cs s;
          },
        ),
      ),
    )
