-- ===== src/UseCounter/Examples.antt =====
-- A counter at concrete actions.
use neolink.Base.{◌+◌, ◌≡◌, refl, arith, List, [], ◌∷◌, true, false, some}
use neolink.UseCounter.{
  UseCounter, new, Action, creates, creates_active, activates, drops, sends_late, receives, run,
  step, create_activated, create_deactivated, activate, drop, send_late, receive, aquired_users,
  dropped_users,
}
use neolink.UseCounter.Counted.{run_balanced, trues, falses}

abbrev actions : List Action
actions =
    creates_active
    ∷ creates
    ∷ activates 0
    ∷ receives
    ∷ drops 1
    ∷ receives
    ∷ sends_late
    ∷ receives
    ∷ []

-- Two users came and one went.
one_left :
    run actions (some new)
    ≡ some (record { value = 1; notifier = []; permits = true ∷ false ∷ []; late = 0 })
unfolding run step new create_activated activate drop send_late receive create_deactivated
one_left = refl

still_used : aquired_users (record { value = 1; notifier = []; permits = []; late = 0 }) ≡ true
unfolding aquired_users
still_used = refl

not_unused : dropped_users (record { value = 1; notifier = []; permits = []; late = 0 }) ≡ false
unfolding dropped_users
not_unused = refl

run_balanced_example :
    (s : UseCounter) × (run actions (some new) ≡ some s)
    × (s.value + trues s.notifier ≡ falses s.notifier + s.late + trues s.permits)
run_balanced_example = run_balanced actions (omega arith)
