-- ===== src/Mpegts/Pes.antt =====
-- A whole frame: the tables where they are due, then the packets of its PES packet.
use neolink.Base.{
  ℕ, ◌+◌, ◌*◌, ◌%◌, ◌≡◌, ◌<◌, ◌≤◌, refl, ap, ◌∙◌, arith, [], ◌∷◌, ◌++◌, length, All, Option, some,
  none, Bool, if◌then◌else◌, if-cases, get_elem?, set, suc, true,
}
use neolink.Base.Words.{Bytes}
use neolink.Mpegts.{TsMuxer, Track, write_psi}
use neolink.Mpegts.Packets.{Chain, chain_len, emit_packets}
use neolink.Mpegts.Demux.{demux}
use neolink.Mpegts.Emit.{demux-emit_packets}
use neolink.Mpegts.Psi.{HasPid, HasTables, write_psi-HasTables}
use neolink.Mpegts.Continuity.{IsAfter, emit_from-IsEmitted}
use neolink.Mpegts.Frames.{
  write_frame, write_track, repeat_psi, psi_due, clock_of, pes_header, is_pcr_track,
}

-- The tables of a muxer: none, or both, and then their counters have gone up.
pub data IsTabled (m : TsMuxer) (tables : Bytes) (m' : TsMuxer) : Type 0 where
  left_out :
      tables ≡ []
      → m'.pat_continuity ≡ m.pat_continuity
      → m'.pmt_continuity ≡ m.pmt_continuity
      → IsTabled m tables m'
  written :
      HasTables m tables
      → m'.pat_continuity % 16 ≡ (m.pat_continuity + 1) % 16
      → m'.pmt_continuity % 16 ≡ (m.pmt_continuity + 1) % 16
      → IsTabled m tables m'

-- The tables come first, both or none; a reader of the track's PID then gets the PES header and
-- the payload. After it the counter of the track has gone up by the packets, and the other tracks
-- are as they were.
pub record IsFramed (m : TsMuxer) (i : ℕ) (t : Track) (clock : ℕ) (payload out : Bytes)
    (m' : TsMuxer) : Type 0 where
  pub tables : Bytes
  pub packets : Bytes
  pub split : out ≡ tables ++ packets
  pub tabled : IsTabled m tables m'
  pub carried :
      demux (suc (length (pes_header t clock payload) + length payload)) t.pid t.continuity packets
      ≡ some (pes_header t clock payload ++ payload)
  pub count : ℕ
  pub whole_packets : length packets ≡ 188 * count
  pub next : Track
  pub next_due : IsAfter t count next
  pub kept : m'.tracks ≡ set m.tracks i next

pub repeat_psi-keeps :
    (clock : ℕ) (ra : Bool) (m : TsMuxer) → (repeat_psi clock ra m).0.tracks ≡ m.tracks
unfolding repeat_psi write_psi
repeat_psi-keeps clock ra m =
    if-cases (λ (r : TsMuxer × Bytes). r.0.tracks ≡ m.tracks) (psi_due m.last_psi clock ra) _ _
      (λ e. refl) (λ e. refl)

counters_up :
    (m : TsMuxer)
    → ((write_psi m).0.pat_continuity % 16 ≡ (m.pat_continuity + 1) % 16)
      × ((write_psi m).0.pmt_continuity % 16 ≡ (m.pmt_continuity + 1) % 16)
unfolding write_psi
counters_up m = (omega arith, omega arith)

repeat_psi-IsTabled :
    (clock : ℕ) (ra : Bool) (m : TsMuxer)
    → length m.tracks ≤ 33
    → All HasPid m.tracks
    → IsTabled m (repeat_psi clock ra m).1 (repeat_psi clock ra m).0
unfolding repeat_psi
repeat_psi-IsTabled clock ra m h k =
    if-cases (λ (r : TsMuxer × Bytes). IsTabled m r.1 r.0) (psi_due m.last_psi clock ra) _ _
      (λ e. written (write_psi-HasTables m h k) (counters_up m).0 (counters_up m).1)
      (λ e. left_out refl refl refl)

-- Only the counters of the tables count for what the reader of them is given.
same_counters :
    (m n n' : TsMuxer) (tables : Bytes)
    → n'.pat_continuity ≡ n.pat_continuity
    → n'.pmt_continuity ≡ n.pmt_continuity
    → IsTabled m tables n
    → IsTabled m tables n'
same_counters m n n' tables a b (left_out e f g) = left_out e (a ∙ f) (b ∙ g)
same_counters m n n' tables a b (written t f g) =
    written t (omega (arith, a, f)) (omega (arith, b, g))

-- What `write_track` writes and leaves, where `m` is the muxer before the tables.
write_track-IsFramed :
    (i clock : ℕ) (ra : Bool) (payload tables : Bytes) (m n : TsMuxer) (o : Option Track)
    (t : Track)
    → o ≡ some t
    → t.pid < 8192
    → n.tracks ≡ m.tracks
    → IsTabled m tables n
    → IsFramed m i t clock payload
        (tables ++ (write_track i clock ra payload n o).1)
        (write_track i clock ra payload n o).0
unfolding write_track chain_len emit_packets
write_track-IsFramed i clock ra payload tables m n o t e p s k =
    let chain : Chain = record { head = pes_header t clock payload; tail = payload } in
    let pcr = if is_pcr_track i n.pcr_track then some clock else none in
    let w = emit_from-IsEmitted (chain_len chain) t chain true pcr ra p (omega arith) in
    rw e (record {
      tables = tables;
      packets = _;
      split = refl;
      tabled = same_counters m n _ tables refl refl k;
      carried = demux-emit_packets t chain pcr ra p;
      count = w.packets;
      whole_packets = w.size;
      next = (emit_packets t chain pcr ra).0;
      next_due = w.next;
      kept = ap (λ ts. set ts i (emit_packets t chain pcr ra).0) s;
    })

-- Writing a frame with a payload on a declared track, with at most 33 tracks and PIDs of 13 bits:
-- the tables come first, both or none. Where they come, a reader finds the PAT under PID 0, which
-- names the PID 0x1000 of program 1, and under that PID the PMT, which lists the stream type and
-- the PID of each track, each in a packet of its own with the counter that is due. A reader of the
-- track's PID then gets exactly the PES header, made for the clock of the frame, and the payload,
-- in whole packets. The muxer afterwards has the counters that follow, modulo 16, the track's up
-- by the number of its packets, and the other tracks as they were.
pub write_frame-IsFramed :
    (i pts_us : ℕ) (ra : Bool) (b : ℕ) (bs : Bytes) (m : TsMuxer) (t : Track)
    → get_elem? m.tracks i ≡ some t
    → t.pid < 8192
    → length m.tracks ≤ 33
    → All HasPid m.tracks
    → IsFramed m i t
        (clock_of pts_us)
        (b ∷ bs)
        (write_frame i pts_us ra (b ∷ bs) m).1
        (write_frame i pts_us ra (b ∷ bs) m).0
unfolding write_frame
write_frame-IsFramed i pts_us ra b bs m t e p h k =
    let clock = clock_of pts_us in
    let same = repeat_psi-keeps clock ra m in
    write_track-IsFramed i clock ra (b ∷ bs) (repeat_psi clock ra m).1 m (repeat_psi clock ra m).0 _
      t (ap (λ ts. get_elem? ts i) same ∙ e) p same (repeat_psi-IsTabled clock ra m h k)
