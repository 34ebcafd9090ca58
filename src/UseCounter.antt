-- ===== src/UseCounter.antt =====
-- src/common/usecounter.rs: a count of the users of a service, kept by a task that is told of every
-- permit taken and given back.
mod Counted
mod Examples
use neolink.Base.{
  ℕ, zero, suc, ◌+◌, ◌-◌, ◌∷◌, ◌++◌, List, [], Bool, true, false, Option, none, some, get_or, set,
  ltb, ◌==◌, if◌then◌else◌,
}
use neolink.Base.Words.{u32}

-- The counter with all of its permits, by whether they are active. `late` counts the tasks that
-- the drop of an active permit leaves behind to send the notice. Sends are taken to complete: a
-- future that waits for room in the channel is not dropped.
pub record UseCounter : Type 0 where
  pub value : ℕ
  pub notifier : List Bool
  pub permits : List Bool
  pub late : ℕ

unfoldable pub new : UseCounter
new = record { value = 0; notifier = []; permits = []; late = 0 }

-- `Permit::new` and `Permit::subscribe`: a permit that is not active.
unfoldable pub create_deactivated : UseCounter → UseCounter
create_deactivated s = record s { permits = false ∷ s.permits }

-- Of a permit that is not there nothing is asked.
unfoldable pub activate : UseCounter → ℕ → UseCounter
activate s i =
    if get_or s.permits i true
    then s
    else record s { permits = set s.permits i true; notifier = s.notifier ++ (true ∷ []) }

unfoldable pub create_activated : UseCounter → UseCounter
unfolding create_deactivated activate
create_activated s = activate (create_deactivated s) 0

unfoldable pub deactivate : UseCounter → ℕ → UseCounter
deactivate s i =
    if get_or s.permits i false
    then record s { permits = set s.permits i false; notifier = s.notifier ++ (false ∷ []) }
    else s

-- `Drop for Permit`
unfoldable pub drop : UseCounter → ℕ → UseCounter
drop s i =
    if get_or s.permits i false
    then record s { permits = set s.permits i false; late = s.late + 1 }
    else s

-- One of the tasks left behind gets to send.
unfoldable pub send_late : UseCounter → UseCounter
send_late s =
    if ltb 0 s.late
    then record s { late = s.late - 1; notifier = s.notifier ++ (false ∷ []) }
    else s

-- What the task does with a notice; none where 1 is taken from 0.
abbrev pub noticed : ℕ → Bool → Option ℕ
noticed value true = some (u32 (value + 1))
noticed zero false = none
noticed (suc value) false = some value

abbrev pub keep : UseCounter → List Bool → Option ℕ → Option UseCounter
keep s rest none = none
keep s rest (some value) = some (record s { value = value; notifier = rest })

-- The task takes a notice from the channel.
unfoldable pub receive : UseCounter → Option UseCounter
receive s = of_notifier s.notifier
  where
    of_notifier : List Bool → Option UseCounter
    of_notifier [] = some s
    of_notifier (noti ∷ rest) = keep s rest (noticed s.value noti)

-- What `aquired_users` and `dropped_users` wait for.
unfoldable pub aquired_users : UseCounter → Bool
aquired_users s = ltb 0 s.value

unfoldable pub dropped_users : UseCounter → Bool
dropped_users s = s.value == 0

pub data Action : Type 0 where
  creates : Action
  creates_active : Action
  activates : ℕ → Action
  deactivates : ℕ → Action
  drops : ℕ → Action
  sends_late : Action
  receives : Action

unfoldable pub step : UseCounter → Action → Option UseCounter
step s creates = some (create_deactivated s)
step s creates_active = some (create_activated s)
step s (activates i) = some (activate s i)
step s (deactivates i) = some (deactivate s i)
step s (drops i) = some (drop s i)
step s sends_late = some (send_late s)
step s receives = receive s

unfoldable pub run : List Action → Option UseCounter → Option UseCounter
run [] s = s
run (a ∷ rest) none = none
run (a ∷ rest) (some s) = run rest (step s a)
