-- ===== src/Create/Handler/Counts.antt =====
-- What the handler create does to the queue, the browser, the client and the map.
use selenoid.Base.{ℕ, ◌+◌, ◌≡◌, Bool, true, false, List, bit, total}
use selenoid.Create.Handler.{
  Action, dropped, created, cancelled, sent, stored, returned, panicked, Handled,
}

abbrev pub drops : Action → ℕ
drops dropped = 1
drops _ = 0

abbrev pub creates : Action → ℕ
creates created = 1
creates _ = 0

abbrev pub cancels : Action → ℕ
cancels cancelled = 1
cancels _ = 0

abbrev pub stores : Action → ℕ
stores (stored id s) = 1
stores _ = 0

abbrev pub is_sent : Action → Bool
is_sent (sent s) = true
is_sent _ = false

-- One token of the queue is given back or kept for a session; the session is in the map if and only if
-- the token is kept; and a browser that was asked for a session has its session in the map, or is stopped.
abbrev pub Balanced : Bool → List Action → Type 0
Balanced asked acts =
    (total drops acts + total creates acts ≡ 1)
    × (total stores acts ≡ total creates acts)
    × (total cancels acts + total creates acts ≡ bit asked)

-- Nothing of this was done.
abbrev pub Untouched : List Action → Type 0
Untouched acts =
    (total drops acts ≡ 0)
    × (total creates acts ≡ 0)
    × (total cancels acts ≡ 0)
    × (total stores acts ≡ 0)

unfoldable pub Good : Bool → Handled → Type 0
Good asked (acts, returned) = Balanced asked acts
Good asked (acts, panicked) = Untouched acts
