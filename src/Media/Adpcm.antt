-- ===== src/Media/Adpcm.antt =====
-- The padding of ADPCM packets: the writer counts the data alone, the reader the four bytes of the
-- sub-header as well.
use neolink.Base.{
  zero, suc, ◌==◌, ◌/◌, ℕ, ◌+◌, ◌-◌, ◌%◌, ◌<◌, ◌≡◌, refl, ap, arith, [], ◌∷◌, ◌++◌, length, Bool,
  true, false, ◌&&◌, ltb, if◌then◌else◌, replicate, length-replicate, append_assoc, append-nil,
  drop-append_length, length-append, Bool-cases, inl, inr,
}
use neolink.Base.Words.{Bytes, IsU16, u16, u32, le_bytes}
use neolink.Wire.{Nom, Cookie, done}
use neolink.Wire.Reads.{
  Reads, same_bytes, bind-Reads, returns, map-Reads, u16-Reads, u32-Reads, take-Reads, verify-Reads,
  consumed-Reads,
}
use neolink.Media.Model.{
  adpcm, BcMediaAdpcm, magic_header_bcmedia_adpcm, magic_header_bcmedia_adpcm_data,
}
use neolink.Media.Ser.{pad_size, pad_from, serialize}
use neolink.Media.De.{bcmedia, deserialize, is_magic}
use neolink.Media.De

abbrev pub zeros : Bytes
zeros = 0 ∷ 0 ∷ 0 ∷ 0 ∷ []

-- The lengths for which the writer pads by more than the reader takes.
abbrev pub overpads_at : ℕ → Bool
overpads_at r = ltb 0 r && ltb r 5

abbrev pub overpads : Bytes → Bool
overpads bytes = overpads_at (length bytes % 8)

half_block_size : Bytes → ℕ
half_block_size bytes = u16 ((length bytes + 18446744073709551616 - 4) % 18446744073709551616 / 2)

-- A packet with any padding.
framed : Bytes → Bytes → Bytes
unfolding half_block_size
framed bytes padding =
    le_bytes 4 magic_header_bcmedia_adpcm
    ++ (le_bytes 2 (u16 (length bytes + 4))
        ++ (le_bytes 2 (u16 (length bytes + 4))
            ++ (le_bytes 2 magic_header_bcmedia_adpcm_data
                ++ (le_bytes 2 (half_block_size bytes) ++ (bytes ++ padding)))))

framed-append :
    (bytes padding rest : Bytes) → framed bytes padding ++ rest ≡ framed bytes (padding ++ rest)
unfolding framed le_bytes
framed-append bytes padding rest = rw (append_assoc bytes padding rest) refl

replicate-zeros : (k : ℕ) → replicate (4 + k) 0 ≡ replicate k 0 ++ zeros
replicate-zeros k = rw (add_four k) (four_more k)
  where
    add_four : (k : ℕ) → 4 + k ≡ suc (suc (suc (suc k)))
    add_four k = omega arith

    four_more : (k : ℕ) → replicate (suc (suc (suc (suc k)))) 0 ≡ replicate k 0 ++ zeros
    four_more zero = refl
    four_more (suc k) = ap (λ l. 0 ∷ l) (four_more k)

-- The two paddings for each remainder of the length.
abbrev Paddings : ℕ → Type 0
Paddings r =
    (overpads_at r ≡ true → pad_from r ≡ 4 + pad_from ((r + 4) % 8))
    × (overpads_at r ≡ false → pad_from r + 4 ≡ pad_from ((r + 4) % 8))

paddings : (r : ℕ) → r < 8 → Paddings r
paddings zero h = (λ e. cc e, λ e. refl)
paddings (suc zero) h = (λ e. refl, λ e. cc e)
paddings (suc (suc zero)) h = (λ e. refl, λ e. cc e)
paddings (suc (suc (suc zero))) h = (λ e. refl, λ e. cc e)
paddings (suc (suc (suc (suc zero)))) h = (λ e. refl, λ e. cc e)
paddings (suc (suc (suc (suc (suc zero))))) h = (λ e. cc e, λ e. refl)
paddings (suc (suc (suc (suc (suc (suc zero)))))) h = (λ e. cc e, λ e. refl)
paddings (suc (suc (suc (suc (suc (suc (suc zero))))))) h = (λ e. cc e, λ e. refl)
paddings (suc (suc (suc (suc (suc (suc (suc (suc r)))))))) h = absurd (omega arith)

pad_size_paddings :
    (len : ℕ)
    → IsU16 (len + 4)
    → (overpads_at (len % 8) ≡ true → pad_size (u32 len) ≡ 4 + pad_size (u16 (len + 4)))
      × (overpads_at (len % 8) ≡ false → pad_size (u32 len) + 4 ≡ pad_size (u16 (len + 4)))
unfolding pad_size
pad_size_paddings len h =
    let a : u32 len % 8 ≡ len % 8 = omega arith in
    let b : u16 (len + 4) % 8 ≡ (len % 8 + 4) % 8 = omega arith in
    rw (a, b) (paddings (len % 8) (omega arith))

module _ (n : Nom) where
  -- The reader, on any padding of the length that it counts.
  adpcm-Reads :
      (a : BcMediaAdpcm) (padding : Bytes)
      → IsU16 (length a.bytes + 4)
      → length padding ≡ pad_size (u16 (length a.bytes + 4))
      → Reads (bcmedia n) (framed a.bytes padding) (adpcm a)
  unfolding bcmedia De.bcmedia_adpcm framed half_block_size
  adpcm-Reads a padding h e =
      let size = u16 (length a.bytes + 4) in
      same_bytes (rw (append-nil padding)) (
        bind-Reads _
          (verify-Reads n is_magic (u32-Reads n magic_header_bcmedia_adpcm (omega arith)) refl)
          (map-Reads adpcm (
            bind-Reads _ (u16-Reads n size (omega arith)) (
              bind-Reads _ (u16-Reads n size (omega arith)) (
                bind-Reads _
                  (verify-Reads n (λ x. x == magic_header_bcmedia_adpcm_data)
                    (u16-Reads n magic_header_bcmedia_adpcm_data (omega arith)) refl)
                  (bind-Reads _ (u16-Reads n (half_block_size a.bytes) (omega arith)) (
                    bind-Reads _ (take-Reads n _ a.bytes (omega arith))
                      (bind-Reads _ (take-Reads n _ padding e) (returns a)))))))))

  deserialize-framed :
      (a : BcMediaAdpcm) (padding rest : Bytes)
      → IsU16 (length a.bytes + 4)
      → length padding ≡ pad_size (u16 (length a.bytes + 4))
      → deserialize n (framed a.bytes (padding ++ rest)) ≡ done (rest, adpcm a)
  unfolding deserialize
  deserialize-framed a padding rest h e =
      let r = consumed-Reads n (adpcm-Reads a padding h e) in
      rw (
        ← framed-append a.bytes padding rest,
        r.whole rest,
        drop-append_length (framed a.bytes padding) rest,
      )

module _ (n : Nom) (c : Cookie) where
  serialize-framed :
      (a : BcMediaAdpcm) (rest : Bytes)
      → serialize c (adpcm a) ++ rest
        ≡ framed a.bytes (replicate (pad_size (u32 (length a.bytes))) 0 ++ rest)
  unfolding serialize framed half_block_size le_bytes
  serialize-framed a rest =
      simp (c.le_u16_lem, c.le_u32_lem, c.slice_lem, c.tuple_cons, c.tuple_nil, append_assoc)

  -- An ADPCM packet is read back, but of what follows it the reader takes four bytes too many, or
  -- it leaves four bytes of the padding: these when the length of the data is 1 to 4 above a
  -- multiple of eight.
  pub deserialize_adpcm :
      (a : BcMediaAdpcm) (four rest : Bytes)
      → IsU16 (length a.bytes + 4)
      → length four ≡ 4
      → deserialize n (serialize c (adpcm a) ++ (four ++ rest))
        ≡ done (if overpads a.bytes then zeros ++ (four ++ rest) else rest, adpcm a)
  deserialize_adpcm a four rest h e = elim (Bool-cases (overpads a.bytes)) [
    | inl over ↦
        let size = pad_size (u16 (length a.bytes + 4)) in
        rw
          (
            serialize-framed a (four ++ rest),
            (pad_size_paddings (length a.bytes) h).0 over,
            over,
            replicate-zeros size,
            append_assoc (replicate size 0) zeros (four ++ rest),
          )
          (deserialize-framed n a (replicate size 0) (zeros ++ (four ++ rest)) h
            (length-replicate {A = ℕ} size 0))
    | inr under ↦
        let size = pad_size (u32 (length a.bytes)) in
        rw (serialize-framed a (four ++ rest), under, ← append_assoc (replicate size 0) four rest)
          (deserialize-framed n a (replicate size 0 ++ four) rest h (
            omega (
              arith,
              length-append (replicate size 0) four,
              length-replicate {A = ℕ} size 0,
              (pad_size_paddings (length a.bytes) h).1 under,
            )))
  ]
