-- ===== src/Queue.antt =====
-- protect/queue.go: the queue that admits requests for new sessions.
--
-- A channel of `struct{}` is the number of tokens in it. One step below is one channel operation
-- of one goroutine, so that the requests interleave as they do in the program.
mod Steps
pub mod Invariant
pub mod Progress
pub mod NoWait
pub mod Refinement
mod Examples
use selenoid.Base.{
  ℕ, zero, suc, ◌+◌, Bool, true, false, Option, none, some, List, [], ◌∷◌, ◌++◌, ltb, if◌then◌else◌,
  get_elem?, set,
}

-- `math.MaxInt32`, the capacity of the channels that are not meant to block.
abbrev pub max_int32 : ℕ
max_int32 = 2147483647

-- The fields are the lengths of the channels; `size` is the capacity of `limit`.
pub record Queue : Type 0 where
  pub disabled : Bool
  pub size : ℕ
  pub limit : ℕ
  pub queued : ℕ
  pub pending : ℕ
  pub used : ℕ

unfoldable pub new : ℕ → Bool → Queue
new size disabled = record {
  disabled = disabled;
  size = size;
  limit = 0;
  queued = 0;
  pending = 0;
  used = 0;
}

-- `ch <- struct{}{}` on a buffered channel: `none` is a goroutine that blocks.
send : ℕ → ℕ → Option ℕ
send capacity len = if ltb len capacity then some (len + 1) else none

-- `<-ch`
receive : ℕ → Option ℕ
receive zero = none
receive (suc len) = some len

-- Why a request is answered with status 429.
pub data Refusal : Type 0 where
  no_wait queue_is_full : Refusal

-- Where the goroutine of one request stands: in `Protect`, in the handler behind it, or with the
-- session that the handler has created.
pub data Pc : Type 0 where
  arrived : (no_wait_header : Bool) → Pc
  refused : Refusal → Pc
  waiting : Pc  -- in the `select` on the context and the limit
  leaving : Pc  -- the client is gone, before `<-q.queued`
  disconnected : Pc
  admitted : Pc  -- holds a limit token, before `q.pending <-`
  accepted : Pc  -- before `<-q.queued`
  serving : Pc  -- in `next.ServeHTTP`
  dropping : Pc  -- in `Drop`, before `<-q.pending`
  dropped : Pc
  promoting : Pc  -- in `Create`, before `q.used <-`
  session : Pc  -- the session runs
  releasing : Pc  -- in `Release`, before `<-q.used`
  closed : Pc

-- What the program and its environment choose at a step.
pub data Choice : Type 0 where
  proceed : Choice
  disconnect : Choice  -- the context of the request is done
  drop : Choice  -- the handler calls `Drop`
  create : Choice  -- the handler calls `Create`

-- The queue, with the number of goroutines that are still to send on `queued`.
pub record Shared : Type 0 where
  pub queue : Queue
  pub open queue use *
  pub announcing : ℕ

abbrev with_limit : Shared → Pc → ℕ → Shared × Pc
with_limit s pc n = (record s { queue = record s.queue { limit = n } }, pc)

abbrev with_queued : Shared → Pc → ℕ → Shared × Pc
with_queued s pc n = (record s { queue = record s.queue { queued = n } }, pc)

abbrev with_pending : Shared → Pc → ℕ → Shared × Pc
with_pending s pc n = (record s { queue = record s.queue { pending = n } }, pc)

abbrev with_used : Shared → Pc → ℕ → Shared × Pc
with_used s pc n = (record s { queue = record s.queue { used = n } }, pc)

abbrev done {ℓ} : {A : Type ℓ} → (ℕ → A) → Option ℕ → Option A
done f none = none
done f (some n) = some (f n)

-- `go func() { q.queued <- struct{}{} }()` starts a goroutine that has yet to send.
announce_later : Shared → Shared
announce_later s = record s { announcing = s.announcing + 1 }

-- From the first `select` of `Protect` to the second: the request takes a limit token, is refused,
-- or waits. Nothing but the first `select` touches a channel here.
enter : Shared → Bool → Shared × Pc
unfolding announce_later send
enter s no_wait_header = elim (send s.size s.limit) [
  | some n ↦ with_limit (announce_later s) admitted n
  | none ↦
      if no_wait_header
      then (s, refused no_wait)
      else if s.disabled
      then (s, refused queue_is_full)
      else (announce_later s, waiting)
]

-- One channel operation of a request. `none`: it blocks, or has none to make.
pub advance : Shared → Pc → Choice → Option (Shared × Pc)
unfolding enter receive
advance s (arrived no_wait_header) proceed = some (enter s no_wait_header)
advance s waiting proceed = done (with_limit s admitted) (send s.size s.limit)
advance s waiting disconnect = some (s, leaving)
advance s leaving proceed = done (with_queued s disconnected) (receive s.queued)
advance s admitted proceed = done (with_pending s accepted) (send max_int32 s.pending)
advance s accepted proceed = done (with_queued s serving) (receive s.queued)
-- `Drop`
advance s serving drop = done (with_limit s dropping) (receive s.limit)
advance s dropping proceed = done (with_pending s dropped) (receive s.pending)
-- `Create`
advance s serving create = done (with_pending s promoting) (receive s.pending)
advance s promoting proceed = done (with_used s session) (send max_int32 s.used)
-- `Release`
advance s session proceed = done (with_limit s releasing) (receive s.limit)
advance s releasing proceed = done (with_used s closed) (receive s.used)
advance s pc choice = none

-- The queue and every request that ever arrived.
pub record System : Type 0 where
  pub shared : Shared
  pub open shared use *
  pub requests : List Pc

pub data Event : Type 0 where
  arrive : (no_wait_header : Bool) → Event
  announce : Event  -- a goroutine of `announce_later` sends
  move : ℕ → Choice → Event  -- a step of one request

pub start : ℕ → Bool → System
unfolding new
start size disabled = record {
  shared = record { queue = new size disabled; announcing = 0 };
  requests = [];
}

abbrev moved : System → ℕ → Option (Shared × Pc) → Option System
moved s i none = none
moved s i (some (s', pc)) = some (record { shared = s'; requests = set s.requests i pc })

abbrev move_request : System → ℕ → Choice → Option Pc → Option System
move_request s i choice none = none
move_request s i choice (some pc) = moved s i (advance s.shared pc choice)

abbrev announced : System → ℕ → Option ℕ → Option System
announced s left none = none
announced s left (some n) =
    some (record s { shared = record { queue = record s.queue { queued = n }; announcing = left } })

announce_now : System → ℕ → Option System
announce_now s zero = none
announce_now s (suc left) = announced s left (send max_int32 s.queued)

pub step : System → Event → Option System
unfolding announce_now
step s (arrive no_wait_header) =
    some (record s { requests = s.requests ++ (arrived no_wait_header ∷ []) })
step s announce = announce_now s s.announcing
step s (move i choice) = move_request s i choice (get_elem? s.requests i)

pub run : System → List Event → Option System
run s [] = some s
run s (e ∷ es) = elim (step s e) [ none ↦ none | some t ↦ run t es ]
