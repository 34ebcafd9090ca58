-- ===== src/Media/Stream.antt =====
-- A stream of media packets through the codec, and damage to it.
use neolink.Base.{
  ℕ, zero, suc, ◌≡◌, ◌≢◌, ◌<◌, ◌⊎◌, false, length-append, refl, arith, List, [], ◌∷◌, ◌++◌, length,
  ==_ne, if◌then◌else◌, All,
}
use neolink.Base.Words.{Bytes, IsU32, le_bytes, length-le_bytes}
use neolink.Wire.{Nom, Cookie, IResult, done, incomplete, error, panic}
use neolink.Media.Model.{BcMedia}
use neolink.Media.Ser.{serialize}
use neolink.Media.De.{deserialize, bcmedia, is_magic}
use neolink.Media.RoundTrip.{FitsMedia, media_deserialize-serialize, media_deserialize-part}
use neolink.Media.Codex.{
  BcMediaCodex, Decoded, packet, no_packet, failed, of_result, decode, decode_from,
}

-- What a reader of the stream has: the packets, the codec and the buffer.
pub record Drained : Type 0 where
  pub packets : List BcMedia
  pub codex : BcMediaCodex
  pub left : Bytes

abbrev pub and_then : Decoded × BcMediaCodex × Bytes → (BcMediaCodex → Bytes → Drained) → Drained
and_then (packet p, codex, src) next = record (next codex src) {
  packets = p ∷ (next codex src).packets;
}
and_then (_, codex, src) next = record { packets = []; codex = codex; left = src }

-- `decode` is called on the buffer until it has no packet.
unfoldable pub drain : Nom → ℕ → BcMediaCodex → Bytes → Drained
drain n zero codex src = record { packets = []; codex = codex; left = src }
drain n (suc fuel) codex src = and_then (decode n codex src) (drain n fuel)

-- The bytes of the packets, as `encode` appends them.
unfoldable pub stream : Cookie → List BcMedia → Bytes → Bytes
stream c [] dst = dst
stream c (p ∷ ps) dst = serialize c p ++ stream c ps dst

-- A word that is not the magic of any packet.
pub record NoMagic (m : ℕ) : Type 0 where
  pub not_info_v1 : m ≢ 0x3130_3031
  pub not_info_v2 : m ≢ 0x3230_3031
  pub not_iframe : (m < 0x6364_3030) ⊎ (0x6364_3039 < m)
  pub not_pframe : (m < 0x6364_3130) ⊎ (0x6364_3139 < m)
  pub not_aac : m ≢ 0x6277_3530
  pub not_adpcm : m ≢ 0x6277_3130

is_magic-NoMagic : (m : ℕ) → NoMagic m → is_magic m ≡ false
is_magic-NoMagic m k =
    ground (arith, k.not_info_v1, k.not_info_v2, k.not_iframe, k.not_pframe, k.not_aac, k.not_adpcm)

module _ (n : Nom) where
  decode-done :
      (codex : BcMediaCodex) (src rest : Bytes) (p : BcMedia)
      → deserialize n src ≡ done (rest, p)
      → decode n codex src ≡ (packet p, record codex { amount_skipped = 0 }, rest)
  unfolding decode decode_from
  decode-done codex src rest p e = rw e

  decode-incomplete :
      (codex : BcMediaCodex) (src : Bytes)
      → deserialize n src ≡ incomplete
      → decode n codex src ≡ (no_packet, record codex { amount_skipped = 0 }, src)
  unfolding decode decode_from
  decode-incomplete codex src e = rw e

  bcmedia-nil : bcmedia n [] ≡ incomplete
  unfolding bcmedia
  bcmedia-nil = rw (n.verify_incomplete ℕ n.le_u32 is_magic [] (n.le_u32_short [] (omega arith)))

  deserialize-nil : deserialize n [] ≡ incomplete
  unfolding deserialize
  deserialize-nil = rw (n.consumed_incomplete BcMedia (bcmedia n) [] bcmedia-nil)

  decode_from-nil :
      (k : ℕ) (codex : BcMediaCodex)
      → decode_from n (suc k) codex [] ≡ (no_packet, record codex { amount_skipped = 0 }, [])
  unfolding decode_from
  decode_from-nil k codex = rw deserialize-nil

  of_result-decode_from :
      (k : ℕ) (codex : BcMediaCodex) (src : Bytes) (r : IResult BcMedia)
      → of_result n (decode_from n (suc k)) codex src r ≡ of_result n (decode_from n 1) codex src r
  of_result-decode_from k codex src (done (rest, p)) = refl
  of_result-decode_from k codex src incomplete = refl
  of_result-decode_from k codex src panic = refl
  of_result-decode_from k codex src error = rw (decode_from-nil k _, decode_from-nil 0 _)

  -- Of more rounds than two, no further one is run.
  decode_from-decode :
      (k : ℕ) (codex : BcMediaCodex) (src : Bytes)
      → decode_from n (suc (suc k)) codex src ≡ decode n codex src
  unfolding decode decode_from
  decode_from-decode k codex src = of_result-decode_from k codex src (deserialize n src)

  -- A buffer that starts with a word that no packet starts with is refused.
  deserialize-NoMagic :
      (m : ℕ) (rest : Bytes) → IsU32 m → NoMagic m → deserialize n (le_bytes 4 m ++ rest) ≡ error
  unfolding deserialize bcmedia
  deserialize-NoMagic m rest h k =
      let refused : is_magic m ≡ false = is_magic-NoMagic m k in
      let word =
        n.verify_done ℕ n.le_u32 is_magic (le_bytes 4 m ++ rest) rest m (n.le_u32_lem m rest h) in
      let parsed : bcmedia n (le_bytes 4 m ++ rest) ≡ error = rw (word, refused) in
      rw (n.consumed_error BcMedia (bcmedia n) (le_bytes 4 m ++ rest) parsed)

  decode-error :
      (codex : BcMediaCodex) (src : Bytes)
      → deserialize n src ≡ error
      → 0 < length src
      → decode n codex src ≡ (
          if codex.strict
          then (failed, codex, src)
          else (no_packet, record codex { amount_skipped = 0 }, []))
  unfolding decode decode_from
  decode-error codex [] e h = let clash : ⊥ = omega (arith, h) in elim clash [ ]
  decode-error codex (b ∷ src) e h =
      rw (e, ==_ne (length (b ∷ src)) 0 (omega arith), deserialize-nil)

module _ (n : Nom) (c : Cookie) where
  -- When a stream of packets that fit the format has arrived with an initial part of another such
  -- packet, the codec hands over exactly those packets, in order, and keeps that part.
  pub drain-stream :
      (codex : BcMediaCodex) (ps : List BcMedia) (next : BcMedia) (front : Bytes) (b : ℕ)
      (back : Bytes)
      → All FitsMedia ps
      → FitsMedia next
      → front ++ (b ∷ back) ≡ serialize c next
      → drain n (suc (length ps)) codex (stream c ps front)
        ≡ record { packets = ps; codex = record codex { amount_skipped = 0 }; left = front }
  unfolding drain stream
  drain-stream codex [] next front b back h k e =
      rw (decode-incomplete n codex front (media_deserialize-part n c next front b back k e))
  drain-stream codex (p ∷ ps) next front b back (h, hs) k e = rw (
    decode-done n codex _ (stream c ps front) p
        (media_deserialize-serialize n c p (stream c ps front) h),
    drain-stream (record codex { amount_skipped = 0 }) ps next front b back hs k e,
  )

  -- When the buffer starts with a word that is not the magic of a packet, whatever follows it, a
  -- strict codec fails and keeps all of it, so that it fails again, and one that is not strict
  -- drops all of it, any sound packets that stand behind the damage included.
  pub decode_damaged :
      (codex : BcMediaCodex) (m : ℕ) (damage : Bytes) (ps : List BcMedia) (back : Bytes)
      → IsU32 m
      → NoMagic m
      → decode n codex (le_bytes 4 m ++ (damage ++ stream c ps back)) ≡ (
          if codex.strict
          then (failed, codex, le_bytes 4 m ++ (damage ++ stream c ps back))
          else (no_packet, record codex { amount_skipped = 0 }, []))
  decode_damaged codex m damage ps back h k =
      decode-error n codex _ (deserialize-NoMagic n m (damage ++ stream c ps back) h k) (
        omega
          (arith, length-append (le_bytes 4 m) (damage ++ stream c ps back), length-le_bytes 4 m))
