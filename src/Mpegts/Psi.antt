-- ===== src/Mpegts/Psi.antt =====
-- The program tables of src/mpegts/mod.rs as a reader of their packets finds them.
use neolink.Base.{
  ℕ, zero, suc, ◌+◌, ◌-◌, ◌*◌, ◌/◌, ◌%◌, ◌^◌, ◌≡◌, ◌≤◌, ◌<◌, refl, arith, bit_or, List, [], ◌∷◌,
  ◌++◌, length, get_or, drop, map, All, append_assoc, true,
}
use neolink.Base.Bits.{bit_or_fields}
use neolink.Base.Words.{Bytes, u8, u16}
use neolink.Mpegts.{
  TsMuxer, Track, id, be_u16, psi_section, pat_section, pmt_section, stream_list, write_psi_packet,
  write_psi, pmt_pid, pcr_pid, reserved_3, empty_info_length,
}
use neolink.Mpegts.Demux.{is_next, header_byte, pid_word}
use neolink.Mpegts.Emit.{is_next-header}
use neolink.Mpegts.Tables.{length-write_psi_packet, length-psi_section, length-stream_list}

-- The 13 bits of the two bytes at `i`.
abbrev pub pid_at : ℕ → Bytes → ℕ
pid_at i p = get_or p i 0 % 32 * 256 + get_or p (i + 1) 0

-- The table of a packet: a whole packet of the PID with the counter that is due, which starts a
-- section of that table with that body.
pub record IsTable (pid c table_id : ℕ) (body p : Bytes) : Type 0 where
  pub size : length p ≡ 188
  pub due : is_next pid c p ≡ true
  pub starts : get_or p 1 0 / 64 % 2 ≡ 1
  pub pointer : get_or p 4 0 ≡ 0
  pub table : get_or p 5 0 ≡ table_id
  pub section_length : get_or p 6 0 % 16 * 256 + get_or p 7 0 ≡ 9 + length body
  pub behind : Bytes
  pub contents : drop 13 p ≡ body ++ behind

psi_packet-IsTable :
    (pid c table_id extension : ℕ) (body : Bytes)
    → pid < 8192
    → length body ≤ 171
    → IsTable pid c table_id body (write_psi_packet pid c (psi_section table_id extension body))
unfolding write_psi_packet psi_section be_u16
psi_packet-IsTable pid c table_id extension body h k =
    let (e, l) = pid_word true pid h in
    let w = bit_or 16384 pid in
    let top : w ≡ 2 * 2 ^ 13 + pid = bit_or_fields 13 2 pid (omega arith) in
    let b = header_byte 1 c (omega arith) in
    let n : u16 (5 + u16 (length body) + 4) ≡ 9 + length body = omega (arith, k) in
    let long : bit_or 45056 (9 + length body) ≡ 11 * 2 ^ 12 + (9 + length body) =
      bit_or_fields 12 11 (9 + length body) (omega (arith, k)) in
    record {
      size =
          length-write_psi_packet pid c (psi_section table_id extension body)
            (omega (arith, length-psi_section table_id extension body, k));
      due = is_next-header w _ pid c _ l e (omega (arith, b));
      starts = omega (arith, top, h);
      pointer = refl;
      table = refl;
      section_length = rw (n, long) (omega (arith, k));
      behind = _;
      contents = append_assoc body _ _;
    }

-- What a reader of the tables is told of a track.
abbrev pub told : Track → ℕ × ℕ
told t = (id t.kind, t.pid)

abbrev pub HasPid : Track → Type 0
HasPid t = t.pid < 8192

-- The stream types and PIDs of `n` streams.
unfoldable pub streams_at : ℕ → Bytes → List (ℕ × ℕ)
streams_at zero bs = []
streams_at (suc n) bs = (get_or bs 0 0, pid_at 1 bs) ∷ streams_at n (drop 5 bs)

-- The streams of a table, as many as fit the length of its section.
unfoldable pub streams_of : Bytes → List (ℕ × ℕ)
streams_of p = streams_at ((get_or p 6 0 % 16 * 256 + get_or p 7 0 - 13) / 5) (drop 4 (drop 13 p))

pid_read :
    (pid : ℕ)
    → pid < 8192
    → u8 (bit_or reserved_3 pid / 256) % 32 * 256 + u8 (bit_or reserved_3 pid) ≡ pid
pid_read pid h =
    let e : bit_or reserved_3 pid ≡ 7 * 2 ^ 13 + pid = bit_or_fields 13 7 pid (omega (arith, h)) in
    omega (arith, e, h)

streams_at-stream_list :
    (ts : List Track) (behind : Bytes)
    → All HasPid ts
    → streams_at (length ts) (stream_list ts ++ behind) ≡ map told ts
unfolding streams_at stream_list be_u16
streams_at-stream_list [] behind h = refl
streams_at-stream_list (t ∷ ts) behind (h, hs) =
    rw (pid_read t.pid h, streams_at-stream_list ts behind hs)

-- The two tables of a muxer, each under its PID and with its counter: the first names the program
-- and the PID of the second, which lists the stream type and the PID of each track, in order.
pub record HasTables (m : TsMuxer) (out : Bytes) : Type 0 where
  pub pat : Bytes
  pub pmt : Bytes
  pub both : out ≡ pat ++ pmt
  pub pat_size : length pat ≡ 188
  pub pat_due : is_next 0 m.pat_continuity pat ≡ true
  pub pat_table : get_or pat 5 0 ≡ 0
  pub program : get_or (drop 13 pat) 0 0 * 256 + get_or (drop 13 pat) 1 0 ≡ 1
  pub map_pid : pid_at 2 (drop 13 pat) ≡ 0x1000
  pub pmt_size : length pmt ≡ 188
  pub pmt_due : is_next 0x1000 m.pmt_continuity pmt ≡ true
  pub pmt_table : get_or pmt 5 0 ≡ 2
  pub streams : streams_of pmt ≡ map told m.tracks

abbrev pmt_body : TsMuxer → Bytes
pmt_body m =
    be_u16 (bit_or reserved_3 (pcr_pid m)) ++ be_u16 empty_info_length ++ stream_list m.tracks

streams_of-IsTable :
    (m : TsMuxer) {c : ℕ} {p : Bytes}
    → All HasPid m.tracks
    → IsTable 0x1000 c 2 (pmt_body m) p
    → streams_of p ≡ map told m.tracks
unfolding streams_of be_u16
streams_of-IsTable m {c = c} {p = p} k b =
    let n : (9 + (4 + length (stream_list m.tracks)) - 13) / 5 ≡ length m.tracks =
      omega (arith, length-stream_list m.tracks) in
    let l : (get_or p 6 0 % 16 * 256 + get_or p 7 0 - 13) / 5 ≡ length m.tracks =
      omega (arith, b.section_length, length-stream_list m.tracks) in
    rw (l, b.contents) (streams_at-stream_list m.tracks b.behind k)

pub write_psi-HasTables :
    (m : TsMuxer) → length m.tracks ≤ 33 → All HasPid m.tracks → HasTables m (write_psi m).1
unfolding write_psi pat_section pmt_section be_u16
write_psi-HasTables m h k =
    let a =
      psi_packet-IsTable 0 m.pat_continuity 0 1 (be_u16 1 ++ be_u16 (bit_or reserved_3 pmt_pid))
        (omega arith) (omega arith) in
    let body = pmt_body m in
    let size : length body ≡ 4 + 5 * length m.tracks = omega (arith, length-stream_list m.tracks) in
    let b =
      psi_packet-IsTable 0x1000 m.pmt_continuity 2 1 body (omega arith) (omega (arith, size, h)) in
    record {
      pat = _;
      pmt = _;
      both = refl;
      pat_size = a.size;
      pat_due = a.due;
      pat_table = a.table;
      program = rw a.contents refl;
      map_pid = rw a.contents refl;
      pmt_size = b.size;
      pmt_due = b.due;
      pmt_table = b.table;
      streams = streams_of-IsTable m k b;
    }
