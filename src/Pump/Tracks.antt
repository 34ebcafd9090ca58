-- ===== src/Pump/Tracks.antt =====
-- What a muxer of src/mpegts/mod.rs declares stays as it is while frames are written.
use neolink.Base.{
  ℕ, zero, suc, ◌≡◌, refl, sym, ap, ◌∙◌, Bool, true, false, List, [], ◌∷◌, Option, some, none, map,
  get_elem?, set, if-cases, ◌==◌,
}
use neolink.Base.Words.{Bytes}
use neolink.Mpegts.{StreamType, Track, TsMuxer}
use neolink.Mpegts.Packets.{Chain, chain_len, emit_packets, emit_from}
use neolink.Mpegts.Frames.{write_frame, write_track, repeat_psi, clock_of}
use neolink.Mpegts.Pes.{repeat_psi-keeps}

-- What the tables say of a track.
abbrev pub entry : Track → ℕ × StreamType
entry t = (t.pid, t.kind)

abbrev pub entries : TsMuxer → List (ℕ × StreamType)
entries m = map entry m.tracks

module _ {ℓ κ} {A : Type ℓ} {B : Type κ} (f : A → B) where
  pub map-set :
      (xs : List A) (i : ℕ) (x y : A)
      → get_elem? xs i ≡ some x
      → f y ≡ f x
      → map f (set xs i y) ≡ map f xs
  map-set [] i x y e h = refl
  map-set (z ∷ xs) zero x y e h =
      let same : z ≡ x = cc in ap (λ w. w ∷ map f xs) (h ∙ ap f (sym same))
  map-set (z ∷ xs) (suc i) x y e h = ap (λ l. f z ∷ l) (map-set xs i x y e h)

  pub get_elem?-map :
      (xs : List A) (i : ℕ) (b : B)
      → get_elem? (map f xs) i ≡ some b
      → (x : A) × (get_elem? xs i ≡ some x) × (f x ≡ b)
  get_elem?-map [] i b e = cc
  get_elem?-map (x ∷ xs) zero b e = (x, refl, cc)
  get_elem?-map (x ∷ xs) (suc i) b e = get_elem?-map xs i b e

entry-emit_from :
    (fuel : ℕ) (t : Track) (c : Chain) (start : Bool) (pcr : Option ℕ) (ra : Bool)
    → entry (emit_from fuel t c start pcr ra).0 ≡ entry t
unfolding emit_from
entry-emit_from zero t c start pcr ra = refl
entry-emit_from (suc fuel) t c start pcr ra =
    if-cases (λ (r : Track × Bytes). entry r.0 ≡ entry t) (chain_len c == 0) _ _ (λ e. refl)
      (λ e. entry-emit_from fuel _ _ false none false)

entries-write_track :
    (i clock : ℕ) (ra : Bool) (payload : Bytes) (m : TsMuxer) (o : Option Track)
    → get_elem? m.tracks i ≡ o
    → entries (write_track i clock ra payload m o).0 ≡ entries m
unfolding write_track emit_packets
entries-write_track i clock ra payload m none e = refl
entries-write_track i clock ra payload m (some t) e =
    map-set entry m.tracks i t _ e (entry-emit_from _ t _ true _ ra)

pub entries-write_frame :
    (i pts_us : ℕ) (ra : Bool) (payload : Bytes) (m : TsMuxer)
    → entries (write_frame i pts_us ra payload m).0 ≡ entries m
unfolding write_frame
entries-write_frame i pts_us ra [] m = refl
entries-write_frame i pts_us ra (b ∷ bs) m =
    entries-write_track i (clock_of pts_us) ra (b ∷ bs) (repeat_psi (clock_of pts_us) ra m).0 _ refl
    ∙ ap (map entry) (repeat_psi-keeps (clock_of pts_us) ra m)
