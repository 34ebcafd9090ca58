-- ===== src/UseCounter/Counted.antt =====
-- The count never falls below zero, and agrees with the permits once all notices are in.
use neolink.Base.{
  ℕ, zero, suc, ◌+◌, ◌-◌, ◌≡◌, ◌≤◌, ◌<◌, refl, ap, subst, arith, List, [], ◌∷◌, ◌++◌, length,
  length-append, Bool, true, false, Option, some, get_or, set, ltb, Bool-cases, inl, inr,
}
use neolink.Base.Words.{u32}
use neolink.UseCounter.{
  UseCounter, new, create_deactivated, create_activated, activate, deactivate, drop, send_late,
  keep, receive, Action, creates, creates_active, activates, deactivates, drops, sends_late,
  receives, step, run,
}

abbrev pub trues : List Bool → ℕ
trues [] = 0
trues (true ∷ q) = trues q + 1
trues (false ∷ q) = trues q

abbrev pub falses : List Bool → ℕ
falses [] = 0
falses (true ∷ q) = falses q
falses (false ∷ q) = falses q + 1

-- No notice takes 1 from 0.
abbrev Covered : ℕ → List Bool → Type 0
Covered value [] = Unit {0}
Covered value (true ∷ q) = Covered (value + 1) q
Covered value (false ∷ q) = (1 ≤ value) × Covered (value - 1) q

record IsCounted (s : UseCounter) (most : ℕ) : Type 0 where
  balanced : s.value + trues s.notifier ≡ falses s.notifier + s.late + trues s.permits
  covered : Covered s.value s.notifier
  bounded : s.value + length s.notifier + s.late ≤ most

trues-append : (q : List Bool) (b : Bool) → trues (q ++ (b ∷ [])) ≡ trues q + trues (b ∷ [])
trues-append [] b = omega arith
trues-append (true ∷ q) b = omega (arith, trues-append q b)
trues-append (false ∷ q) b = omega (arith, trues-append q b)

falses-append : (q : List Bool) (b : Bool) → falses (q ++ (b ∷ [])) ≡ falses q + falses (b ∷ [])
falses-append [] b = omega arith
falses-append (true ∷ q) b = omega (arith, falses-append q b)
falses-append (false ∷ q) b = omega (arith, falses-append q b)

append_true-Covered : (v : ℕ) (q : List Bool) → Covered v q → Covered v (q ++ (true ∷ []))
append_true-Covered v [] h = tt
append_true-Covered v (true ∷ q) h = append_true-Covered (v + 1) q h
append_true-Covered v (false ∷ q) (k, h) = (k, append_true-Covered (v - 1) q h)

append_false-Covered :
    (v : ℕ) (q : List Bool)
    → falses q + 1 ≤ v + trues q
    → Covered v q
    → Covered v (q ++ (false ∷ []))
append_false-Covered v [] k h = (omega arith, tt)
append_false-Covered v (true ∷ q) k h = append_false-Covered (v + 1) q (omega arith) h
append_false-Covered v (false ∷ q) k (l, h) = (l, append_false-Covered (v - 1) q (omega arith) h)

trues-set : (p : List Bool) (i : ℕ) → get_or p i true ≡ false → trues (set p i true) ≡ trues p + 1
trues-set [] i h = cc h
trues-set (false ∷ p) zero h = refl
trues-set (true ∷ p) zero h = cc h
trues-set (true ∷ p) (suc i) h = omega (arith, trues-set p i h)
trues-set (false ∷ p) (suc i) h = omega (arith, trues-set p i h)

trues-set_back :
    (p : List Bool) (i : ℕ) → get_or p i false ≡ true → trues (set p i false) + 1 ≡ trues p
trues-set_back [] i h = cc h
trues-set_back (true ∷ p) zero h = refl
trues-set_back (false ∷ p) zero h = cc h
trues-set_back (true ∷ p) (suc i) h = omega (arith, trues-set_back p i h)
trues-set_back (false ∷ p) (suc i) h = omega (arith, trues-set_back p i h)

loosen : {s : UseCounter} {k l : ℕ} → IsCounted s k → k ≤ l → IsCounted s l
loosen i h = record {
  balanced = i.balanced;
  covered = i.covered;
  bounded = omega (arith, i.bounded);
}

module _ (s : UseCounter) (k : ℕ) (i : IsCounted s k) where
  open i use {balanced, covered, bounded}

  stay : IsCounted s (k + 1)
  stay = record { balanced = balanced; covered = covered; bounded = omega arith }

  activate-IsCounted : (at : ℕ) → IsCounted (activate s at) (k + 1)
  unfolding activate
  activate-IsCounted at = elim (Bool-cases (get_or s.permits at true)) [
    | inl there ↦ rw there stay
    | inr free ↦ rw free (record {
      balanced = omega (
        arith,
        trues-append s.notifier true,
        falses-append s.notifier true,
        trues-set s.permits at free,
      );
      covered = append_true-Covered s.value s.notifier covered;
      bounded = omega (arith, length-append s.notifier (true ∷ []));
    })
  ]

  deactivate-IsCounted : (at : ℕ) → IsCounted (deactivate s at) (k + 1)
  unfolding deactivate
  deactivate-IsCounted at = elim (Bool-cases (get_or s.permits at false)) [
    | inl active ↦
        let fewer = trues-set_back s.permits at active in
        rw active (record {
          balanced =
              omega (arith, trues-append s.notifier false, falses-append s.notifier false, fewer);
          covered = append_false-Covered s.value s.notifier (omega (arith, fewer)) covered;
          bounded = omega (arith, length-append s.notifier (false ∷ []));
        })
    | inr other ↦ rw other stay
  ]

  drop-IsCounted : (at : ℕ) → IsCounted (drop s at) (k + 1)
  unfolding drop
  drop-IsCounted at = elim (Bool-cases (get_or s.permits at false)) [
    | inl active ↦ rw active (record {
      balanced = omega (arith, trues-set_back s.permits at active);
      covered = covered;
      bounded = omega arith;
    })
    | inr other ↦ rw other stay
  ]

  send_late-IsCounted : IsCounted (send_late s) (k + 1)
  unfolding send_late
  send_late-IsCounted = elim (Bool-cases (ltb 0 s.late)) [
    | inl some_late ↦
        let positive : 1 ≤ s.late = ground arith in
        rw some_late (record {
          balanced = omega (arith, trues-append s.notifier false, falses-append s.notifier false);
          covered = append_false-Covered s.value s.notifier (omega arith) covered;
          bounded = omega (arith, length-append s.notifier (false ∷ []));
        })
    | inr none_late ↦ rw none_late stay
  ]

  create-IsCounted : IsCounted (create_deactivated s) k
  unfolding create_deactivated
  create-IsCounted = record { balanced = omega arith; covered = covered; bounded = omega arith }

-- A result that is there and is counted.
abbrev CountedResult : Option UseCounter → ℕ → Type 0
CountedResult result most = (s : UseCounter) × (result ≡ some s) × IsCounted s most

receive-IsCounted :
    (value late : ℕ) (q permits : List Bool) (k : ℕ)
    → (let s : UseCounter = record {
      value = value;
      notifier = q;
      permits = permits;
      late = late;
    } in
        IsCounted s k → k + 1 < 4294967296 → CountedResult (receive s) (k + 1))
unfolding receive
receive-IsCounted value late [] permits k i h = (_, refl, stay _ k i)
receive-IsCounted value late (true ∷ q) permits k i h =
    let s : UseCounter = record {
      value = value;
      notifier = true ∷ q;
      permits = permits;
      late = late;
    } in
    let more : u32 (value + 1) ≡ value + 1 = omega (arith, i.bounded) in
    (
      record { value = value + 1; notifier = q; permits = permits; late = late },
      ap (λ v. keep s q (some v)) more,
      record {
        balanced = omega (arith, i.balanced);
        covered = i.covered;
        bounded = omega (arith, i.bounded);
      },
    )
receive-IsCounted zero late (false ∷ q) permits k i h = absurd (omega (arith, i.covered.0))
receive-IsCounted (suc value) late (false ∷ q) permits k i h = (
  record { value = value; notifier = q; permits = permits; late = late },
  refl,
  record {
    balanced = omega (arith, i.balanced);
    covered = subst (λ v. Covered v q) (pred value) i.covered.1;
    bounded = omega (arith, i.bounded);
  },
)
  where
    pred : (v : ℕ) → suc v - 1 ≡ v
    pred v = omega arith

step-IsCounted :
    (s : UseCounter) (k : ℕ) (a : Action)
    → IsCounted s k
    → k + 1 < 4294967296
    → CountedResult (step s a) (k + 1)
unfolding step create_activated
step-IsCounted s k creates i h = (_, refl, stay (create_deactivated s) k (create-IsCounted s k i))
step-IsCounted s k creates_active i h =
    (_, refl, activate-IsCounted (create_deactivated s) k (create-IsCounted s k i) 0)
step-IsCounted s k (activates at) i h = (_, refl, activate-IsCounted s k i at)
step-IsCounted s k (deactivates at) i h = (_, refl, deactivate-IsCounted s k i at)
step-IsCounted s k (drops at) i h = (_, refl, drop-IsCounted s k i at)
step-IsCounted s k sends_late i h = (_, refl, send_late-IsCounted s k i)
step-IsCounted s k receives i h = receive-IsCounted s.value s.late s.notifier s.permits k i h

run-IsCounted :
    (s : UseCounter) (k : ℕ) (actions : List Action)
    → IsCounted s k
    → k + length actions < 4294967296
    → CountedResult (run actions (some s)) (k + length actions)
unfolding run
run-IsCounted s k [] i h = (s, refl, loosen i (omega arith))
run-IsCounted s k (a ∷ rest) i h =
    let (s', e, j) = step-IsCounted s k a i (omega arith) in
    let (t, f, l) = run-IsCounted s' (k + 1) rest j (omega arith) in
    (t, rw e f, loosen l (omega arith))

-- Whatever is done with the permits, and whenever the notices are sent and taken, less than 2^32
-- actions never take 1 from 0, and the count with the notices on their way makes up the number of
-- permits that are active.
pub run_balanced :
    (actions : List Action)
    → length actions < 4294967296
    → (s : UseCounter) × (run actions (some new) ≡ some s)
      × (s.value + trues s.notifier ≡ falses s.notifier + s.late + trues s.permits)
unfolding new
run_balanced actions h =
    let start : IsCounted new 0 = record {
      balanced = omega arith;
      covered = tt;
      bounded = omega arith;
    } in
    let (s, e, i) = run-IsCounted new 0 actions start (omega arith) in (s, e, i.balanced)
