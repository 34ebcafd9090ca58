-- ===== src/Transport/Ack.antt =====
-- The acknowledgements: what they say of the receiver, and what the sender may forget.
use neolink.Base.{
  ℕ, ◌+◌, ◌-◌, ◌≤◌, ◌<◌, ◌≡◌, refl, ◌∙◌, arith, List, [], ◌∷◌, length, none, some, Bool, true,
  false, not, ◌&&◌, ◌||◌, ltb, leb, ◌==◌, if◌then◌else◌, zero, suc, Bool-cases, Option-cases, inl,
  inr, if-true, if-false,
}
use neolink.Base.Words.{u32, Bytes}
use neolink.Udp.Model.{UdpAck, UdpData}
use neolink.Transport.Map.{
  contains_key, remove, retain, max_key, contains_key-remove, contains_key-retain,
  contains_key-max_key,
}
use neolink.Transport.Source.{
  Inner, first_missing, missing_ids, build_send_ack, remove_acked, forget_acked,
}

-- The ids that an acknowledgement can name.
abbrev pub AreNamed {ℓ} : {V : Type ℓ} → List (ℕ × V) → Type 0
AreNamed [] = Unit {0}
AreNamed ((k, v) ∷ m) = k < 0xffff_ffff × AreNamed m

-- How many entries have an id from `k` on.
abbrev count_from : ℕ → List (ℕ × Bytes) → ℕ
count_from k [] = 0
count_from k ((j, v) ∷ m) = (if ltb j k then 0 else 1) + count_from k m

count_from-le : (k : ℕ) (m : List (ℕ × Bytes)) → count_from (k + 1) m ≤ count_from k m
count_from-le k [] = omega arith
count_from-le k ((j, v) ∷ m) = ground (arith, count_from-le k m)

count_from-lt :
    (k : ℕ) (m : List (ℕ × Bytes)) → contains_key k m ≡ true → count_from (k + 1) m < count_from k m
unfolding contains_key
count_from-lt k [] e = cc
count_from-lt k ((j, v) ∷ m) e = ground (arith, count_from-le k m, count_from-lt k m)

count_from-length : (k : ℕ) (m : List (ℕ × Bytes)) → count_from k m ≤ length m
count_from-length k [] = omega arith
count_from-length k ((j, v) ∷ m) = ground (arith, count_from-length k m)

named-lt : (k : ℕ) (m : List (ℕ × Bytes)) → AreNamed m → contains_key k m ≡ true → k < 0xffff_ffff
unfolding contains_key
named-lt k [] h e = cc
named-lt k ((j, v) ∷ m) (n, h) e = ground (arith, named-lt k m h)

empty_count : (k : ℕ) (m : List (ℕ × Bytes)) → count_from k m ≤ 0 → contains_key k m ≡ false
unfolding contains_key
empty_count k [] h = refl
empty_count k ((j, v) ∷ m) h = ground (arith, empty_count k m)

same_id : (k j : ℕ) (m : List (ℕ × Bytes)) → k ≡ j → contains_key k m ≡ contains_key j m
same_id k j m e = cc

-- The result of the loop over `first_missing`: the first id from `k` on that is missing.
record IsFirstMissing (m : List (ℕ × Bytes)) (k : ℕ) (r : ℕ) : Type 0 where
  from : k ≤ r
  small : r ≤ 0xffff_ffff
  missing : contains_key r m ≡ false
  before : (j : ℕ) → k ≤ j → j < r → contains_key j m ≡ true

first_missing-IsFirstMissing :
    (fuel : ℕ) (m : List (ℕ × Bytes)) (k : ℕ)
    → AreNamed m
    → k ≤ 0xffff_ffff
    → count_from k m ≤ fuel
    → IsFirstMissing m k (first_missing fuel m k)
unfolding first_missing
first_missing-IsFirstMissing zero m k n b h = record {
  from = omega arith;
  small = b;
  missing = empty_count k m h;
  before = λ j p q. ground arith;
}
first_missing-IsFirstMissing (suc fuel) m k n b h = elim (Bool-cases (contains_key k m)) [
  | inr e ↦
      rw (if-false (contains_key k m) (first_missing fuel m (u32 (k + 1))) k e)
        (record { from = omega arith; small = b; missing = e; before = λ j p q. ground arith })
  | inl e ↦
      let c : k < 0xffff_ffff = named-lt k m n e in
      let d : u32 (k + 1) ≡ k + 1 = omega arith in
      let h' : count_from (k + 1) m ≤ fuel = omega (arith, count_from-lt k m e) in
      let r = first_missing-IsFirstMissing fuel m (k + 1) n (omega arith) h' in
      rw (if-true (contains_key k m) (first_missing fuel m (u32 (k + 1))) k e, d)
        (record {
          from = omega (arith, r.from);
          small = r.small;
          missing = r.missing;
          before = λ j p q. elim (Bool-cases (j == k)) [
            | inl y ↦ same_id j k m (ground arith) ∙ e
            | inr y ↦ r.before j (ground arith) q
          ];
        })
]

module _ (m : List (ℕ × Bytes)) (start : ℕ) where
  remove_acked-received :
      (idx k n : ℕ) (sent : List (ℕ × UdpData))
      → contains_key k m ≡ true
      → remove_acked start idx (missing_ids m k (suc n)) sent
        ≡ remove_acked start
            (idx + 1)
            (missing_ids m (k + 1) n)
            (remove (u32 (start + 1 + idx)) sent)
  unfolding remove_acked missing_ids
  remove_acked-received idx k n sent e = rw e refl

  remove_acked-missing :
      (idx k n : ℕ) (sent : List (ℕ × UdpData))
      → contains_key k m ≡ false
      → remove_acked start idx (missing_ids m k (suc n)) sent
        ≡ remove_acked start (idx + 1) (missing_ids m (k + 1) n) sent
  unfolding remove_acked missing_ids
  remove_acked-missing idx k n sent e = rw e refl

  -- The payload says which of the ids that it covers have been received.
  contains_key-remove_acked :
      (idx k n j : ℕ) (sent : List (ℕ × UdpData))
      → k ≡ start + 1 + idx
      → k + n ≤ 0x1_0000_0000
      → contains_key j (remove_acked start idx (missing_ids m k n) sent)
        ≡ (contains_key j sent && not (leb k j && ltb j (k + n) && contains_key j m))
  unfolding remove_acked missing_ids
  contains_key-remove_acked idx k zero j sent e h = ground arith
  contains_key-remove_acked idx k (suc n) j sent e h = elim (Bool-cases (contains_key k m)) [
    | inl c ↦
        let u : u32 (start + 1 + idx) ≡ k = omega arith in
        rw
          (
            remove_acked-received idx k n sent c,
            u,
            contains_key-remove_acked (idx + 1) (k + 1) n j (remove k sent) (omega arith)
                (omega arith),
            contains_key-remove k j sent,
          )
          (ground (arith, same_id k j m))
    | inr c ↦
        rw
          (
            remove_acked-missing idx k n sent c,
            contains_key-remove_acked (idx + 1) (k + 1) n j sent (omega arith) (omega arith),
          )
          (ground (arith, same_id k j m))
  ]

max_key-named : (m : List (ℕ × Bytes)) (i : ℕ) → AreNamed m → max_key m ≡ some i → i < 0xffff_ffff
unfolding max_key
max_key-named [] i h e = cc
max_key-named ((k, v) ∷ m) i (n, h) e = ground (arith, n, max_key-named m i h)

-- The packet has been handed over, or is held to be.
unfoldable pub has : Inner → ℕ → Bool
has r j = ltb j r.packets_want || contains_key j r.recieved

module _ (r : Inner) (w : 0 < r.packets_want) where
  first : ℕ
  first = first_missing (length r.recieved) r.recieved r.packets_want

  build_send_ack-packet_id :
      0 < first → first ≤ 0xffff_ffff → (build_send_ack r).packet_id ≡ first - 1
  unfolding build_send_ack first
  build_send_ack-packet_id p q = ground arith

  build_send_ack-none : max_key r.recieved ≡ none → (build_send_ack r).payload ≡ []
  unfolding build_send_ack first
  build_send_ack-none e = ground arith

  build_send_ack-some :
      (i : ℕ)
      → max_key r.recieved ≡ some i
      → (build_send_ack r).payload ≡ missing_ids r.recieved first (u32 (i + 1) - first)
  unfolding build_send_ack first
  build_send_ack-some i e = ground arith

forget_acked-retain :
    (a : UdpAck) (sent : List (ℕ × UdpData))
    → a.packet_id < 0xffff_ffff
    → forget_acked a sent
      ≡ remove_acked a.packet_id 0 a.payload (retain (λ k. ltb a.packet_id k) sent)
unfolding forget_acked
forget_acked-retain a sent h = ground arith

-- Forgetting the ids below the first missing one, and those that the payload says are received,
-- is forgetting what the receiver has.
exact_none :
    (want k j : ℕ) (h mine : Bool)
    → 0 < want
    → want ≤ k
    → (want ≤ j → j < k → h ≡ true)
    → h ≡ false
    → (ltb (k - 1) j && mine) ≡ (mine && not (ltb j want || h))
exact_none want k j h mine w f b n = ground arith

exact_some :
    (want k i j : ℕ) (h mine : Bool)
    → 0 < want
    → want ≤ k
    → (want ≤ j → j < k → h ≡ true)
    → (h ≡ true → j ≤ i)
    → i < 0xffff_ffff
    → ((ltb (k - 1) j && mine) && not (leb k j && ltb j (k + (u32 (i + 1) - k)) && h))
      ≡ (mine && not (ltb j want || h))
exact_some want k i j h mine w f b t l = ground arith

within_max : (j i : ℕ) (m : List (ℕ × Bytes)) → max_key m ≡ some i → contains_key j m ≡ true → j ≤ i
within_max j i m e c = ground (arith, contains_key-max_key j m c)

none_within : (j : ℕ) (m : List (ℕ × Bytes)) → max_key m ≡ none → contains_key j m ≡ false
none_within j m e = ground (arith, contains_key-max_key j m)

-- A sender that gets the receiver's acknowledgement forgets exactly those of its packets that
-- the receiver has, once the receiver has handed over a packet, when the ids that the receiver
-- holds are below `0xffff_ffff`.
pub forget_acked-build_send_ack :
    (r : Inner) (sent : List (ℕ × UdpData)) (j : ℕ)
    → 0 < r.packets_want
    → r.packets_want ≤ 0xffff_ffff
    → AreNamed r.recieved
    → contains_key j (forget_acked (build_send_ack r) sent) ≡ (contains_key j sent && not (has r j))
unfolding has first remove_acked
forget_acked-build_send_ack r sent j w b n =
    let f =
      first_missing-IsFirstMissing (length r.recieved) r.recieved r.packets_want n b
        (count_from-length r.packets_want r.recieved) in
    let k : ℕ = first r w in
    let id : (build_send_ack r).packet_id ≡ k - 1 =
      build_send_ack-packet_id r w (omega (arith, f.from)) f.small in
    let kept = retain (λ i. ltb (k - 1) i) sent in
    rw (forget_acked-retain (build_send_ack r) sent (omega (arith, id, f.small, f.from)), id)
      (elim (Option-cases (max_key r.recieved)) [
        | inl e ↦ rw (build_send_ack-none r w e) (
            contains_key-retain (λ i. ltb (k - 1) i) j sent
            ∙ exact_none r.packets_want k j (contains_key j r.recieved) (contains_key j sent) w
                f.from (f.before j) (none_within j r.recieved e))
        | inr (i, e) ↦
            let l : i < 0xffff_ffff = max_key-named r.recieved i n e in
            rw
              (
                build_send_ack-some r w i e,
                contains_key-remove_acked r.recieved (k - 1) 0 k (u32 (i + 1) - k) j kept
                    (omega (arith, f.from)) (omega (arith, f.small)),
                contains_key-retain (λ i. ltb (k - 1) i) j sent,
              )
              (exact_some r.packets_want k i j (contains_key j r.recieved) (contains_key j sent) w
                f.from (f.before j) (within_max j i r.recieved e) l)
      ])
