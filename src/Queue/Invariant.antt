-- ===== src/Queue/Invariant.antt =====
-- What the lengths of the channels of protect/queue.go count.
use selenoid.Base.{
  ℕ, ◌+◌, ◌≤◌, ◌≡◌, Bool, some, List, [], ◌∷◌, ◌++◌, arith, get_elem?, set, total, total-append,
  total-set, sym, ◌∙◌,
}
use mathlib.Core.Path.{subst}
use selenoid.Queue.Steps.{move_cases, arrive_shape, run_preserves}
use selenoid.Queue.{
  Shared, Pc, Choice, System, Event, arrive, announce, move, advance, start, step, run, send,
  arrived, waiting, leaving, admitted, accepted, serving, dropping, promoting, session, releasing,
  proceed,
}

-- The request holds a token of `limit`: it may start a browser, or has one.
abbrev pub in_limit : Pc → ℕ
in_limit admitted = 1
in_limit accepted = 1
in_limit serving = 1
in_limit promoting = 1
in_limit session = 1
in_limit _ = 0

-- It has a token in `pending`.
abbrev pub in_pending : Pc → ℕ
in_pending accepted = 1
in_pending serving = 1
in_pending dropping = 1
in_pending _ = 0

-- It has a token in `used`.
abbrev pub in_used : Pc → ℕ
in_used session = 1
in_used releasing = 1
in_used _ = 0

-- It has announced itself on `queued`, and has not taken a token back.
abbrev pub in_queued : Pc → ℕ
in_queued waiting = 1
in_queued leaving = 1
in_queued admitted = 1
in_queued accepted = 1
in_queued _ = 0

pub record Inv (size : ℕ) (disabled : Bool) (s : System) : Type 0 where
  pub same_size : s.size ≡ size
  pub same_disabled : s.disabled ≡ disabled
  pub within : s.limit ≤ size
  pub limit_counts : s.limit ≡ total in_limit s.requests
  pub pending_counts : s.pending ≡ total in_pending s.requests
  pub used_counts : s.used ≡ total in_used s.requests
  pub queued_counts : s.queued + s.announcing ≡ total in_queued s.requests

-- One step of one request changes the channels as it changes what the request holds.
record Accounts (s : Shared) (pc : Pc) (t : Shared) (pc' : Pc) : Type 0 where
  same_size : t.size ≡ s.size
  same_disabled : t.disabled ≡ s.disabled
  within : s.limit ≤ s.size → t.limit ≤ s.size
  limit_moves : t.limit + in_limit pc ≡ s.limit + in_limit pc'
  pending_moves : t.pending + in_pending pc ≡ s.pending + in_pending pc'
  used_moves : t.used + in_used pc ≡ s.used + in_used pc'
  queued_moves : t.queued + t.announcing + in_queued pc ≡ s.queued + s.announcing + in_queued pc'

advance-Accounts :
    (s : Shared) (pc : Pc) (choice : Choice) (t : Shared) (pc' : Pc)
    → advance s pc choice ≡ some (t, pc')
    → Accounts s pc t pc'
unfolding advance
advance-Accounts s (arrived h) proceed t pc' e = ground arith
advance-Accounts s _ _ t pc' e = ground arith

module _ (size : ℕ) (disabled : Bool) where
  moved-Inv :
      (s : System) (i : ℕ) (pc : Pc) (t : Shared) (pc' : Pc)
      → get_elem? s.requests i ≡ some pc
      → Accounts s.shared pc t pc'
      → Inv size disabled s
      → Inv size disabled (record { shared = t; requests = set s.requests i pc' })
  moved-Inv s i pc t pc' at a v = record {
    same_size = a.same_size ∙ v.same_size;
    same_disabled = a.same_disabled ∙ v.same_disabled;
    within = omega (arith, a.within, v.same_size, v.within);
    limit_counts =
        omega (arith, total-set in_limit s.requests i pc pc' at, a.limit_moves, v.limit_counts);
    pending_counts =
        omega
          (arith, total-set in_pending s.requests i pc pc' at, a.pending_moves, v.pending_counts);
    used_counts =
        omega (arith, total-set in_used s.requests i pc pc' at, a.used_moves, v.used_counts);
    queued_counts =
        omega (arith, total-set in_queued s.requests i pc pc' at, a.queued_moves, v.queued_counts);
  }

  arrive-Inv :
      (s : System) (h : Bool)
      → Inv size disabled s
      → Inv size disabled (record s { requests = s.requests ++ (arrived h ∷ []) })
  arrive-Inv s h v = record {
    same_size = v.same_size;
    same_disabled = v.same_disabled;
    within = v.within;
    limit_counts = omega (arith, total-append in_limit s.requests (arrived h ∷ []), v.limit_counts);
    pending_counts =
        omega (arith, total-append in_pending s.requests (arrived h ∷ []), v.pending_counts);
    used_counts = omega (arith, total-append in_used s.requests (arrived h ∷ []), v.used_counts);
    queued_counts =
        omega (arith, total-append in_queued s.requests (arrived h ∷ []), v.queued_counts);
  }

  announce-Inv :
      (s t : System) → step s announce ≡ some t → Inv size disabled s → Inv size disabled t
  unfolding step send
  announce-Inv s t e v = ground arith

  -- Every step keeps the counts.
  pub step-Inv :
      (s : System) (e : Event) (t : System)
      → step s e ≡ some t
      → Inv size disabled s
      → Inv size disabled t
  step-Inv s (arrive h) t e v = subst (Inv size disabled) (arrive_shape s h t e) (arrive-Inv s h v)
  step-Inv s announce t e v = announce-Inv s t e v
  step-Inv s (move i choice) t e v =
      let (pc, q, pc', at, taken, shape) = move_cases s i choice t e in
      subst (Inv size disabled) (sym shape)
        (moved-Inv s i pc q pc' at (advance-Accounts s.shared pc choice q pc' taken) v)

  pub start-Inv : Inv size disabled (start size disabled)
  unfolding start
  start-Inv = ground arith

-- After any interleaving of any requests, from an empty queue: the limit is not exceeded, and the
-- four channels hold exactly the tokens of the requests that stand where one is held.
pub run-Inv :
    (size : ℕ) (disabled : Bool) (es : List Event) (t : System)
    → run (start size disabled) es ≡ some t
    → Inv size disabled t
run-Inv size disabled es t e =
    run_preserves (Inv size disabled) (step-Inv size disabled) (start size disabled) es t e
      (start-Inv size disabled)
