-- ===== src/Service/Wait/Outcomes.antt =====
-- What `wait` of service/service.go returns, and what it leaves behind.
use selenoid.Base.{
  ℕ, ◌+◌, ◌≤◌, ◌≡◌, Bool, true, false, some, List, [], ◌∷◌, arith, Option-cases, inl, inr,
}
use mathlib.Core.Path.{subst}
use mathlib.Core.Option.{some-injective}
use selenoid.Service.Wait.{
  Caller, responded, timed_out, Prober, asking, sending, ended, State, start, Event, time_up, meet,
  check, wake, answer, step, run, on_time_up, on_meet, on_check, on_answer, on_wake,
}

abbrev pub is_timed_out : Caller → Bool
is_timed_out timed_out = true
is_timed_out _ = false

-- The answers that a caller, and a prober, stand for.
abbrev pub taken : Caller → ℕ
taken responded = 1
taken _ = 0

abbrev pub held : Prober → ℕ
held sending = 1
held _ = 0

abbrev pub busy : Prober → ℕ
busy ended = 0
busy _ = 1

-- `done` is closed if and only if the time was up first; there is one answer at most, and it was returned or
-- is about to be sent; and where a response was returned the prober has ended.
pub record Inv (s : State) : Type 0 where
  pub closed_late : s.done ≡ is_timed_out s.caller
  pub one_answer : s.answers ≡ taken s.caller + held s.prober
  pub at_most_one : s.answers ≤ 1
  pub over_when_taken : taken s.caller + busy s.prober ≤ 1

step-Inv : (s : State) (e : Event) (t : State) → step s e ≡ some t → Inv s → Inv t
unfolding step on_time_up on_meet on_check on_answer on_wake
step-Inv s time_up t e v = ground arith
step-Inv s meet t e v = ground arith
step-Inv s check t e v = ground arith
step-Inv s (answer good) t e v = ground arith
step-Inv s wake t e v = ground arith

start-Inv : Inv start
unfolding start
start-Inv = ground arith

-- What every step keeps, every run keeps.
run_preserves {ℓ} :
    (P : State → Type ℓ)
    → ((s : State) (e : Event) (t : State) → step s e ≡ some t → P s → P t)
    → (s : State) (es : List Event) (t : State) → run s es ≡ some t
    → P s
    → P t
unfolding run
run_preserves P keeps s [] t e v = subst P (some-injective _ _ e) v
run_preserves P keeps s (x ∷ es) t e v = elim (Option-cases (step s x)) [
  | inl stuck ↦ absurd (ground arith)
  | inr (u, taken) ↦ run_preserves P keeps u es t (rw (taken, run) at e) (keeps s x u taken v)
]

-- `wait` returns no error only for an answer, and then its goroutine has ended; it returns an error only when
-- the time is up, and then `done` is closed. There is never more than one answer.
pub wait-Inv : (es : List Event) (t : State) → run start es ≡ some t → Inv t
wait-Inv es t e = run_preserves Inv step-Inv start es t e start-Inv

-- The time was up while the prober held an answer, after so many requests.
record Stuck (n : ℕ) (s : State) : Type 0 where
  caller_gone : s.caller ≡ timed_out
  still_sends : s.prober ≡ sending
  no_more : s.requests ≡ n

step-Stuck : (n : ℕ) (s : State) (e : Event) (t : State) → step s e ≡ some t → Stuck n s → Stuck n t
unfolding step on_time_up on_meet on_check on_answer on_wake
step-Stuck n s time_up t e v = ground arith
step-Stuck n s meet t e v = ground arith
step-Stuck n s check t e v = ground arith
step-Stuck n s (answer good) t e v = ground arith
step-Stuck n s wake t e v = ground arith

answered-Stuck :
    (s t : State)
    → s.caller ≡ timed_out
    → s.prober ≡ asking
    → step s (answer true) ≡ some t
    → Stuck s.requests t
unfolding step on_answer
answered-Stuck s t gone asks e = ground arith

-- Where the time is up while a request is under way that is then answered, the goroutine waits at `up` for
-- ever: whatever happens later, it has not ended.
pub wait_leaks :
    (fs : List Event) (s t u : State)
    → s.caller ≡ timed_out
    → s.prober ≡ asking
    → step s (answer true) ≡ some t
    → run t fs ≡ some u
    → (u.prober ≡ sending) × (u.caller ≡ timed_out) × (u.requests ≡ s.requests)
wait_leaks fs s t u gone asks answered later =
    let v =
      run_preserves (Stuck s.requests) (step-Stuck s.requests) t fs u later
        (answered-Stuck s t gone asks answered) in
    (v.still_sends, v.caller_gone, v.no_more)
