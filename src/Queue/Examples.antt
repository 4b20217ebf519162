-- ===== src/Queue/Examples.antt =====
-- Runs of the queue, and its theorems at concrete runs.
use selenoid.Base.{◌≡◌, refl, true, false, some, List, [], ◌∷◌, map, All}
use selenoid.Queue.{
  System, Pc, Event, arrive, announce, move, start, step, run, advance, proceed, disconnect, create,
  session, waiting, closed, disconnected, refused, queue_is_full,
}
use selenoid.Queue.Invariant.{Inv, run-Inv}
use selenoid.Queue.Refinement.{Served, phase, run-Served}
use selenoid.Queue.NoWait.{is_waiting, run-never_waits}

-- With a limit of one, a second request waits while the first creates its session.
abbrev contended : List Event
contended =
    arrive false
    ∷ move 0 proceed
    ∷ announce
    ∷ arrive false
    ∷ move 1 proceed
    ∷ move 0 proceed
    ∷ move 0 proceed
    ∷ move 0 create
    ∷ move 0 proceed
    ∷ []

abbrev contended_end : System
contended_end = record {
  shared = record {
    queue = record { disabled = false; size = 1; limit = 1; queued = 0; pending = 0; used = 1 };
    announcing = 1;
  };
  requests = session ∷ waiting ∷ [];
}

contended_runs : run (start 1 false) contended ≡ some contended_end
unfolding run step advance start
contended_runs = refl

run-Inv_example : Inv 1 false contended_end
run-Inv_example = run-Inv 1 false contended contended_end contended_runs

-- The session is closed; the waiting client goes away.
abbrev finished : List Event
finished =
    arrive false
    ∷ move 0 proceed
    ∷ announce
    ∷ move 0 proceed
    ∷ move 0 proceed
    ∷ move 0 create
    ∷ move 0 proceed
    ∷ arrive false
    ∷ move 1 proceed
    ∷ move 1 disconnect
    ∷ announce
    ∷ move 1 proceed
    ∷ move 0 proceed
    ∷ move 0 proceed
    ∷ []

abbrev finished_end : System
finished_end = record {
  shared = record {
    queue = record { disabled = false; size = 1; limit = 0; queued = 0; pending = 0; used = 0 };
    announcing = 0;
  };
  requests = closed ∷ disconnected ∷ [];
}

-- The queue is disabled and full.
abbrev full : List Event
full = arrive false ∷ move 0 proceed ∷ arrive false ∷ move 1 proceed ∷ []

abbrev full_end : System
full_end = record {
  shared = record {
    queue = record { disabled = true; size = 1; limit = 1; queued = 0; pending = 0; used = 0 };
    announcing = 1;
  };
  requests = Pc.admitted ∷ refused queue_is_full ∷ [];
}

full_runs : run (start 1 true) full ≡ some full_end
unfolding run step advance start
full_runs = refl

run-never_waits_example : All (λ p. is_waiting p ≡ false) full_end.requests
run-never_waits_example = run-never_waits 1 full full_end full_runs

run-Served_example : Served 1 (map phase contended_end.requests)
run-Served_example = run-Served 1 false contended contended_end contended_runs
