-- ===== src/Queue/NoWait.antt =====
-- protect/queue.go with the wait queue disabled.
use selenoid.Base.{
  ℕ, ◌≡◌, refl, Bool, true, false, some, List, [], ◌∷◌, arith, All, All-set, All-append,
  All-get_elem?,
}
use mathlib.Core.Path.{subst, sym, ◌∙◌}
use selenoid.Queue.Steps.{move_cases, arrive_shape, announce_keeps, run_preserves}
use selenoid.Queue.{
  Shared, Pc, Choice, System, Event, arrive, announce, move, advance, start, step, run, arrived,
  waiting, leaving, disconnected, proceed,
}

-- The request waits for a token, or gave up waiting.
abbrev pub is_waiting : Pc → Bool
is_waiting waiting = true
is_waiting leaving = true
is_waiting disconnected = true
is_waiting _ = false

advance-never_waits :
    (s : Shared) (pc : Pc) (choice : Choice) (t : Shared) (pc' : Pc)
    → s.disabled ≡ true
    → is_waiting pc ≡ false
    → advance s pc choice ≡ some (t, pc')
    → (is_waiting pc' ≡ false) × (t.disabled ≡ true)
unfolding advance
advance-never_waits s (arrived h) proceed t pc' d w e = ground arith
advance-never_waits s _ _ t pc' d w e = ground arith

abbrev NoneWaits : System → Type 0
NoneWaits s = (s.disabled ≡ true) × All (λ p. is_waiting p ≡ false) s.requests

step-NoneWaits :
    (s : System) (e : Event) (t : System) → step s e ≡ some t → NoneWaits s → NoneWaits t
step-NoneWaits s (arrive h) t e n =
    subst NoneWaits (arrive_shape s h t e)
      (n.0, All-append (λ p. is_waiting p ≡ false) s.requests (arrived h ∷ []) n.1 (refl, tt))
step-NoneWaits s announce t e n =
    let (same, kept) = announce_keeps s t e in
    (kept ∙ n.0, subst (All (λ p. is_waiting p ≡ false)) (sym same) n.1)
step-NoneWaits s (move i choice) t e n =
    let (pc, q, pc', at, taken, shape) = move_cases s i choice t e in
    let now =
      advance-never_waits s.shared pc choice q pc' n.0
        (All-get_elem? (λ p. is_waiting p ≡ false) s.requests i pc n.1 at) taken in
    subst NoneWaits (sym shape)
      (now.1, All-set (λ p. is_waiting p ≡ false) s.requests i pc' n.1 now.0)

start-NoneWaits : (size : ℕ) → NoneWaits (start size true)
unfolding start
start-NoneWaits size = (refl, tt)

-- With `-disable-queue` no request ever waits for a token: each has been refused, runs, or is over.
pub run-never_waits :
    (size : ℕ) (es : List Event) (t : System)
    → run (start size true) es ≡ some t
    → All (λ p. is_waiting p ≡ false) t.requests
run-never_waits size es t e =
    (run_preserves NoneWaits step-NoneWaits (start size true) es t e (start-NoneWaits size)).1
