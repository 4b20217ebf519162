-- ===== src/Service/Wait.antt =====
-- service/service.go: `wait`, with its two goroutines, the channels `up` and `done`, and the time that is up
-- at any moment.
pub mod Outcomes
mod Examples
use selenoid.Base.{ℕ, ◌+◌, Bool, true, false, Option, none, some, List, [], ◌∷◌, if◌then◌else◌}

-- The caller: in its `select`, or returned.
pub data Caller : Type 0 where
  waiting responded timed_out : Caller

-- The goroutine that asks: at its `select`, in `http.DefaultClient.Do`, in `<-time.After`, at `up <-`, ended.
pub data Prober : Type 0 where
  checking asking sleeping sending ended : Prober

-- `done` is closed or not; `requests` and `answers` count what was asked and what was answered.
pub record State : Type 0 where
  pub caller : Caller
  pub prober : Prober
  pub done : Bool
  pub requests : ℕ
  pub answers : ℕ

pub start : State
start = record { caller = waiting; prober = checking; done = false; requests = 0; answers = 0 }

-- What happens next: the time is up, the two meet on `up`, or the prober goes on. `answer true` is a response
-- of any status.
pub data Event : Type 0 where
  time_up meet check wake : Event
  answer : Bool → Event

on_time_up : State → Caller → Option State
on_time_up s waiting = some (record s { caller = timed_out; done = true })
on_time_up s _ = none

-- `up` has no buffer: both sides have to be there.
on_meet : State → Caller → Prober → Option State
on_meet s waiting sending = some (record s { caller = responded; prober = ended })
on_meet s _ _ = none

on_check : State → Prober → Option State
on_check s checking =
    if s.done
    then some (record s { prober = ended })
    else some (record s { prober = asking; requests = s.requests + 1 })
on_check s _ = none

on_answer : State → Bool → Prober → Option State
on_answer s true asking = some (record s { prober = sending; answers = s.answers + 1 })
on_answer s false asking = some (record s { prober = sleeping })
on_answer s _ _ = none

on_wake : State → Prober → Option State
on_wake s sleeping = some (record s { prober = checking })
on_wake s _ = none

pub step : State → Event → Option State
unfolding on_time_up on_meet on_check on_answer on_wake
step s time_up = on_time_up s s.caller
step s meet = on_meet s s.caller s.prober
step s check = on_check s s.prober
step s (answer good) = on_answer s good s.prober
step s wake = on_wake s s.prober

pub run : State → List Event → Option State
run s [] = some s
run s (e ∷ es) = elim (step s e) [ none ↦ none | some t ↦ run t es ]
