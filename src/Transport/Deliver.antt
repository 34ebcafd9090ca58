-- ===== src/Transport/Deliver.antt =====
-- The application is handed the camera's packets in the order of their ids.
use neolink.Base.{
  ℕ, ◌+◌, ◌≤◌, ◌<◌, ◌≡◌, refl, subst, ◌∙◌, arith, List, [], ◌∷◌, ◌++◌, length, none, some, true,
  false, if◌then◌else◌, zero, suc, Bool-cases, Option-cases, inl, inr, if-true, if-false,
}
use neolink.Base.Words.{u32, Bytes}
use neolink.Transport.Map.{lookup, Entries, lookup-Entries, remove-Entries, length-remove_found}
use neolink.Transport.Source.{
  Inner, RunResult, ok, err, hand_over, stream_gone, take_next, give, and_then, run, select, Ready,
}

-- The payloads of the ids below `n`, where `content` gives the payload of each id.
abbrev pub firsts : (ℕ → Bytes) → ℕ → List Bytes
firsts content zero = []
firsts content (suc n) = firsts content n ++ (content n ∷ [])

-- A packet that the camera sent, with an id that an acknowledgement can name.
pub record IsFrom (content : ℕ → Bytes) (k : ℕ) (p : Bytes) : Type 0 where
  pub same : p ≡ content k
  pub named : k < 0xffff_ffff

-- Exactly the payloads of the ids below `packets_want` have been handed over, in their order.
pub record InOrder (content : ℕ → Bytes) (s : Inner) : Type 0 where
  pub ordered : s.thread_stream ≡ firsts content s.packets_want
  pub held : Entries (IsFrom content) s.recieved

-- Nothing that could be handed over is left.
abbrev pub IsDrained : RunResult → Type 0
IsDrained (ok s) = lookup s.packets_want s.recieved ≡ none
IsDrained (err e s) = s.stream_closed ≡ true

module _ (s : Inner) where
  hand_over-none : (fuel : ℕ) → lookup s.packets_want s.recieved ≡ none → hand_over fuel s ≡ ok s
  unfolding hand_over
  hand_over-none zero e = refl
  hand_over-none (suc fuel) e = rw (hand_over, e) refl

  module _ (payload : Bytes) (e : lookup s.packets_want s.recieved ≡ some payload) where
    hand_over-some :
        (fuel : ℕ)
        → hand_over (suc fuel) s ≡ (
            if s.stream_closed
            then err stream_gone (take_next s)
            else hand_over fuel (give payload (take_next s)))
    unfolding hand_over
    hand_over-some fuel = rw (hand_over, e) refl

    hand_over-closed :
        (fuel : ℕ) → s.stream_closed ≡ true → hand_over (suc fuel) s ≡ err stream_gone (take_next s)
    hand_over-closed fuel c = hand_over-some fuel ∙ if-true s.stream_closed _ _ c

    hand_over-open :
        (fuel : ℕ)
        → s.stream_closed ≡ false
        → hand_over (suc fuel) s ≡ hand_over fuel (give payload (take_next s))
    hand_over-open fuel c = hand_over-some fuel ∙ if-false s.stream_closed _ _ c

    give-take_next-InOrder :
        (content : ℕ → Bytes) → InOrder content s → InOrder content (give payload (take_next s))
    unfolding give take_next
    give-take_next-InOrder content h =
        let f = lookup-Entries (IsFrom content) s.packets_want s.recieved payload e h.held in
        let n : u32 (s.packets_want + 1) ≡ suc s.packets_want = omega (arith, f.named) in
        record {
          ordered = rw (n, h.ordered, f.same) refl;
          held = remove-Entries (IsFrom content) s.packets_want s.recieved h.held;
        }

-- A connection to that camera by that client, in order so far.
module _ (camera client : ℕ) (content : ℕ → Bytes) where
  pub record Session (s : Inner) : Type 0 where
    pub to_camera : s.camera_addr ≡ camera
    pub to_client : s.client_id ≡ client
    pub in_order : InOrder content s

  -- After an error the application still has an initial part of what the camera sent.
  abbrev pub Keeps : RunResult → Type 0
  Keeps (ok s) = Session s
  Keeps (err e s) = (n : ℕ) × (s.thread_stream ≡ firsts content n)

  pub hand_over-Keeps : (fuel : ℕ) (s : Inner) → Session s → Keeps (hand_over fuel s)
  unfolding hand_over take_next give
  hand_over-Keeps zero s h = h
  hand_over-Keeps (suc fuel) s h = elim (Option-cases (lookup s.packets_want s.recieved)) [
    | inl n ↦ rw (hand_over-none s (suc fuel) n) h
    | inr (payload, e) ↦ elim (Bool-cases s.stream_closed) [
      | inl c ↦ rw (hand_over-closed s payload e fuel c) (s.packets_want, h.in_order.ordered)
      | inr o ↦ rw (hand_over-open s payload e fuel o) (
          hand_over-Keeps fuel (give payload (take_next s)) (record {
            to_camera = h.to_camera;
            to_client = h.to_client;
            in_order = give-take_next-InOrder s payload e content h.in_order;
          }))
    ]
  ]

lookup-nil : (k : ℕ) (m : List (ℕ × Bytes)) → length m ≤ 0 → lookup k m ≡ none
unfolding lookup
lookup-nil k [] h = refl
lookup-nil k (x ∷ m) h = ground arith

-- One turn of fuel for each packet held is enough.
pub hand_over-IsDrained :
    (fuel : ℕ) (s : Inner) → length s.recieved ≤ fuel → IsDrained (hand_over fuel s)
unfolding hand_over take_next give
hand_over-IsDrained zero s h = lookup-nil s.packets_want s.recieved h
hand_over-IsDrained (suc fuel) s h = elim (Option-cases (lookup s.packets_want s.recieved)) [
  | inl n ↦ rw (hand_over-none s (suc fuel) n) n
  | inr (payload, e) ↦ elim (Bool-cases s.stream_closed) [
    | inl c ↦ rw (hand_over-closed s payload e fuel c) c
    | inr o ↦ rw (hand_over-open s payload e fuel o) (
        hand_over-IsDrained fuel (give payload (take_next s))
          (omega (arith, length-remove_found s.packets_want s.recieved payload e)))
  ]
]

and_then-ok :
    (r : RunResult) (f : Inner → RunResult) (s : Inner)
    → and_then r f ≡ ok s
    → (s' : Inner) × ((r ≡ ok s') × (f s' ≡ ok s))
unfolding and_then
and_then-ok (ok s') f s e = (s', (refl, e))
and_then-ok (err x s') f s e = cc

-- A turn that ends without an error has handed over all that could be: the packet that is wanted
-- next has not been received.
pub run-drained :
    (r : Ready) (s s' : Inner) → run r s ≡ ok s' → lookup s'.packets_want s'.recieved ≡ none
unfolding run
run-drained r s s' e =
    let (m, (p, q)) = and_then-ok (select r s) _ s' e in
    subst IsDrained q (hand_over-IsDrained (length m.recieved) m (omega arith))
