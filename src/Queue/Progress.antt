-- ===== src/Queue/Progress.antt =====
-- What the counts of protect/queue.go are for: no operation behind the queue ever blocks, the limit
-- bounds the browsers, and nothing is left in the channels.
use selenoid.Base.{ℕ, ◌≤◌, ◌<◌, Bool, true, false}
use selenoid.Queue.{
  Shared, Pc, Choice, refused, disconnected, serving, dropping, dropped, promoting, session,
  releasing, closed, proceed, drop, create, max_int32,
}
use selenoid.Queue.Invariant.{in_limit, in_pending, in_used}

-- A request that starts a browser or has one.
abbrev pub has_browser : Pc → ℕ
has_browser serving = 1
has_browser promoting = 1
has_browser session = 1
has_browser _ = 0

-- A request that is past the queue, and the choices that it has there.
abbrev pub Behind : Pc → Choice → Type 0
Behind serving drop = Unit {0}
Behind serving create = Unit {0}
Behind dropping proceed = Unit {0}
Behind promoting proceed = Unit {0}
Behind session proceed = Unit {0}
Behind releasing proceed = Unit {0}
Behind _ _ = ⊥

-- The channels are as full as the operation needs.
record Ready (s : Shared) (pc : Pc) : Type 0 where
  has_limit : in_limit pc ≤ s.limit
  has_pending : in_pending pc ≤ s.pending
  has_used : in_used pc ≤ s.used
  room : (s.pending < max_int32) × (s.used < max_int32)

-- The request has come to an end.
abbrev pub is_over : Pc → Bool
is_over (refused r) = true
is_over disconnected = true
is_over dropped = true
is_over closed = true
is_over _ = false
