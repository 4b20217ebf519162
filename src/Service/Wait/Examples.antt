-- ===== src/Service/Wait/Examples.antt =====
-- A service that answers, and one that answers too late.
use selenoid.Base.{◌≡◌, refl, true, false, List, [], ◌∷◌}
use selenoid.Service.Wait.{
  State, responded, timed_out, ended, sending, asking, start, Event, meet, check, wake, answer,
  step, run,
}
use selenoid.Service.Wait.Outcomes.{Inv, wait-Inv, wait_leaks}

abbrev up_at_second : List Event
up_at_second = check ∷ answer false ∷ wake ∷ check ∷ answer true ∷ meet ∷ []

abbrev up : State
up = record { caller = responded; prober = ended; done = false; requests = 2; answers = 1 }

wait-Inv_example : Inv up
unfolding run step start
wait-Inv_example = wait-Inv up_at_second up refl

abbrev late : State
late = record { caller = timed_out; prober = asking; done = true; requests = 1; answers = 0 }

abbrev stuck : State
stuck = record { caller = timed_out; prober = sending; done = true; requests = 1; answers = 1 }

wait_leaks_example :
    (stuck.prober ≡ sending) × (stuck.caller ≡ timed_out) × (stuck.requests ≡ late.requests)
unfolding run step
wait_leaks_example = wait_leaks [] late stuck stuck refl refl refl refl
