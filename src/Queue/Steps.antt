-- ===== src/Queue/Steps.antt =====
-- The steps of the system of protect/queue.go taken apart, and induction over its runs.
use selenoid.Base.{
  ℕ, ◌≡◌, Bool, some, List, [], ◌∷◌, ◌++◌, arith, Option-cases, get_elem?, set, inl, inr,
}
use mathlib.Core.Path.{subst}
use mathlib.Core.Option.{some-injective}
use selenoid.Queue.{
  Shared, Pc, Choice, System, Event, arrive, announce, move, advance, step, run, arrived, send,
}

-- The steps of one request, taken apart: the request stands somewhere, and its step is `advance`.
pub move_cases :
    (s : System) (i : ℕ) (choice : Choice) (t : System)
    → step s (move i choice) ≡ some t
    → (pc : Pc) × (q : Shared) × (pc' : Pc) × (get_elem? s.requests i ≡ some pc)
      × (advance s.shared pc choice ≡ some (q, pc'))
      × (t ≡ record { shared = q; requests = set s.requests i pc' })
unfolding step
move_cases s i choice t e = elim (Option-cases (get_elem? s.requests i)) [
  | inl none_there ↦ absurd (ground arith)
  | inr (pc, at) ↦ elim (Option-cases (advance s.shared pc choice)) [
    | inl blocked ↦ absurd (ground arith)
    | inr ((q, pc'), taken) ↦ (pc, q, pc', at, taken, ground arith)
  ]
]

pub arrive_shape :
    (s : System) (h : Bool) (t : System)
    → step s (arrive h) ≡ some t
    → record s { requests = s.requests ++ (arrived h ∷ []) } ≡ t
unfolding step
arrive_shape s h t e = ground arith

pub announce_keeps :
    (s t : System)
    → step s announce ≡ some t
    → (t.requests ≡ s.requests) × (t.disabled ≡ s.disabled)
unfolding step send
announce_keeps s t e = ground arith

-- What every step keeps, every run keeps.
pub run_preserves {ℓ} :
    (P : System → Type ℓ)
    → ((s : System) (e : Event) (t : System) → step s e ≡ some t → P s → P t)
    → (s : System) (es : List Event) (t : System) → run s es ≡ some t
    → P s
    → P t
unfolding run
run_preserves P keeps s [] t e v = subst P (some-injective _ _ e) v
run_preserves P keeps s (x ∷ es) t e v = elim (Option-cases (step s x)) [
  | inl stuck ↦ absurd (ground arith)
  | inr (u, taken) ↦ run_preserves P keeps u es t (rw (taken, run) at e) (keeps s x u taken v)
]
