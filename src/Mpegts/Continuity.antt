-- ===== src/Mpegts/Continuity.antt =====
-- The counter of a track goes up with each packet of src/mpegts/mod.rs.
use neolink.Base.{
  ℕ, zero, suc, ◌+◌, ◌-◌, ◌*◌, ◌%◌, ◌==◌, ◌≡◌, ◌≢◌, ◌≤◌, ◌<◌, refl, arith, [], ◌++◌, length,
  length-append, Option, none, Bool, true, false, if-true, if-false, Bool-cases, inl, inr,
}
use neolink.Base.Words.{Bytes}
use neolink.Mpegts.{Track}
use neolink.Mpegts.Packets.{Chain, chain_len, chain_take, reserved, emit_from}
use neolink.Mpegts.Demux.{chain_take-IsMoved}
use neolink.Mpegts.Emit.{
  packet-IsReadable, room, reserved-le, count, next_track, moved, packet, after,
}

-- The track once `n` packets more have been written.
pub record IsAfter (t : Track) (n : ℕ) (t' : Track) : Type 0 where
  pub pid : t'.pid ≡ t.pid
  pub kind : t'.kind ≡ t.kind
  pub continuity : t'.continuity % 16 ≡ (t.continuity + n) % 16

module _ (fuel : ℕ) (t : Track) (chain : Chain) (start : Bool) (pcr : Option ℕ) (ra : Bool) where
  stops : (chain_len chain == 0) ≡ true → emit_from (suc fuel) t chain start pcr ra ≡ (t, [])
  unfolding emit_from
  stops z = if-true (chain_len chain == 0) _ _ z

  goes_on :
      (chain_len chain == 0) ≡ false
      → emit_from (suc fuel) t chain start pcr ra ≡ (
        (emit_from fuel
            (next_track fuel t chain start pcr ra)
            (moved fuel t chain start pcr ra).1
            false
            none
            false).0,
        packet fuel t chain start pcr ra ++ after fuel t chain start pcr ra,
      )
  unfolding emit_from packet after moved count next_track
  goes_on z = if-false (chain_len chain == 0) _ _ z

-- The packets that are written, and the track after them.
pub record IsEmitted (t : Track) (emitted : Track × Bytes) : Type 0 where
  pub packets : ℕ
  pub size : length emitted.1 ≡ 188 * packets
  pub next : IsAfter t packets emitted.0

pub emit_from-IsEmitted :
    (fuel : ℕ) (t : Track) (chain : Chain) (start : Bool) (pcr : Option ℕ) (ra : Bool)
    → t.pid < 8192
    → chain_len chain ≤ fuel
    → IsEmitted t (emit_from fuel t chain start pcr ra)
unfolding count next_track moved packet after emit_from
emit_from-IsEmitted zero t chain start pcr ra p h = record {
  packets = 0;
  size = omega arith;
  next = record { pid = refl; kind = refl; continuity = omega arith };
}
emit_from-IsEmitted (suc fuel) t chain start pcr ra p h = elim (Bool-cases (chain_len chain == 0)) [
  | inl z ↦ rw (stops fuel t chain start pcr ra z) (record {
    packets = 0;
    size = omega arith;
    next = record { pid = refl; kind = refl; continuity = omega arith };
  })
  | inr z ↦
      let n : chain_len chain ≢ 0 = ground arith in
      let le : reserved pcr ra ≤ 8 = reserved-le pcr ra in
      let taken = count fuel t chain start pcr ra in
      let m = chain_take-IsMoved taken chain (omega arith) in
      let k =
        packet-IsReadable t start (184 - taken) t.continuity pcr ra (chain_take taken chain).0 p
          refl (omega (arith, m.count_moved)) (room pcr ra (184 - taken) (omega arith)) in
      let r =
        emit_from-IsEmitted fuel (next_track fuel t chain start pcr ra) (chain_take taken chain).1
          false none false p (omega (arith, m.left, n, le)) in
      rw (goes_on fuel t chain start pcr ra z) (record {
        packets = suc r.packets;
        size = omega (
          arith,
          length-append (packet fuel t chain start pcr ra) (after fuel t chain start pcr ra),
          k.size,
          r.size,
        );
        next = record {
          pid = r.next.pid;
          kind = r.next.kind;
          continuity = omega (arith, r.next.continuity);
        };
      })
]
