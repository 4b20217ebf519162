-- ===== src/Queue/Refinement.antt =====
-- What the queue of protect/queue.go promises, as a machine with one number, and that the channels keep it.
use selenoid.Base.{
  ℕ, zero, suc, ◌≤◌, ◌<◌, ◌≡◌, refl, ap, sym, ◌∙◌, Bool, some, List, [], ◌∷◌, ◌++◌, map, arith,
  get_elem?, set, total,
}
use mathlib.Core.List.{map-append}
use mathlib.Core.Path.{subst}
use selenoid.Queue.Steps.{move_cases, arrive_shape, announce_keeps, run_preserves}
use selenoid.Queue.{
  Shared, Pc, Choice, System, Event, arrive, announce, move, advance, start, step, run, arrived,
  refused, waiting, leaving, disconnected, admitted, accepted, serving, dropping, dropped,
  promoting, session, releasing, closed, proceed,
}
use selenoid.Queue.Invariant.{Inv, in_limit, step-Inv, start-Inv}

-- How a client sees its request: not let in yet, let in, refused, or over.
pub data Phase : Type 0 where
  outside inside turned_away over : Phase

abbrev pub holds : Phase → ℕ
holds inside = 1
holds _ = 0

-- What may become of one request, where so many are let in of so many places.
abbrev pub Allowed : (used size : ℕ) → Phase → Phase → Type 0
Allowed used size outside inside = used < size
Allowed used size outside turned_away = size ≤ used
Allowed used size outside _ = Unit {0}
Allowed used size inside inside = Unit {0}
Allowed used size inside over = Unit {0}
Allowed used size turned_away turned_away = Unit {0}
Allowed used size over over = Unit {0}
Allowed used size _ _ = ⊥

-- The histories of requests that a queue with so many places may have.
pub data Served (size : ℕ) : List Phase → Type 0 where
  empty : Served size []
  arrives : {ps qs : List Phase} → Served size ps → qs ≡ ps ++ (outside ∷ []) → Served size qs
  changes :
      {ps qs : List Phase} (i : ℕ) (p q : Phase)
      → Served size ps
      → get_elem? ps i ≡ some p
      → Allowed (total holds ps) size p q
      → qs ≡ set ps i q
      → Served size qs

abbrev pub phase : Pc → Phase
phase (arrived h) = outside
phase (refused r) = turned_away
phase waiting = outside
phase leaving = over
phase disconnected = over
phase admitted = inside
phase accepted = inside
phase serving = inside
phase dropping = over
phase dropped = over
phase promoting = inside
phase session = inside
phase releasing = over
phase closed = over

holds-phase : (pc : Pc) → holds (phase pc) ≡ in_limit pc
holds-phase (arrived h) = refl
holds-phase _ = refl

total-phases : (pcs : List Pc) → total holds (map phase pcs) ≡ total in_limit pcs
total-phases [] = refl
total-phases (pc ∷ pcs) = omega (arith, holds-phase pc, total-phases pcs)

get-phase :
    (pcs : List Pc) (i : ℕ) (pc : Pc)
    → get_elem? pcs i ≡ some pc
    → get_elem? (map phase pcs) i ≡ some (phase pc)
get-phase [] i pc e = absurd (cc)
get-phase (q ∷ pcs) zero pc e = cc
get-phase (q ∷ pcs) (suc i) pc e = get-phase pcs i pc e

set-phase :
    (pcs : List Pc) (i : ℕ) (pc : Pc) → map phase (set pcs i pc) ≡ set (map phase pcs) i (phase pc)
set-phase [] i pc = refl
set-phase (q ∷ pcs) zero pc = refl
set-phase (q ∷ pcs) (suc i) pc = ap (λ l. phase q ∷ l) (set-phase pcs i pc)

advance-Allowed :
    (s : Shared) (pc : Pc) (choice : Choice) (t : Shared) (pc' : Pc)
    → advance s pc choice ≡ some (t, pc')
    → Allowed s.limit s.size (phase pc) (phase pc')
unfolding advance
advance-Allowed s (arrived h) proceed t pc' e = ground arith
advance-Allowed s _ _ t pc' e = ground arith

-- The invariant of the channels, with the history that the queue lets its clients see.
record Shows (size : ℕ) (disabled : Bool) (s : System) : Type 0 where
  counts : Inv size disabled s
  history : Served size (map phase s.requests)

step-Served :
    (size : ℕ) (disabled : Bool) (s : System) (e : Event) (t : System)
    → step s e ≡ some t
    → Shows size disabled s
    → Served size (map phase t.requests)
step-Served size disabled s (arrive h) t e v =
    subst (λ u. Served size (map phase u.requests)) (arrive_shape s h t e)
      (arrives v.history (map-append phase s.requests (arrived h ∷ [])))
step-Served size disabled s announce t e v =
    subst (λ l. Served size (map phase l)) (sym (announce_keeps s t e).0) v.history
step-Served size disabled s (move i choice) t e v =
    let (pc, q, pc', at, taken, shape) = move_cases s i choice t e in
    let used : s.limit ≡ total holds (map phase s.requests) =
      v.counts.limit_counts ∙ sym (total-phases s.requests) in
    let allowed : Allowed (total holds (map phase s.requests)) size (phase pc) (phase pc') =
      subst (λ n. Allowed n size (phase pc) (phase pc')) used
        (subst (λ n. Allowed s.limit n (phase pc) (phase pc')) v.counts.same_size
          (advance-Allowed s.shared pc choice q pc' taken)) in
    subst (λ u. Served size (map phase u.requests)) (sym shape)
      (changes i (phase pc) (phase pc') v.history (get-phase s.requests i pc at) allowed
        (set-phase s.requests i pc'))

-- Every run of the channels, goroutine by goroutine, is a history of the queue as it is promised: a request
-- is let in only while a place is free, and refused only while none is; one that is let in stays so until it
-- is over; and one that is refused or over stays that.
pub run-Served :
    (size : ℕ) (disabled : Bool) (es : List Event) (t : System)
    → run (start size disabled) es ≡ some t
    → Served size (map phase t.requests)
run-Served size disabled es t e =
    let shown : Shows size disabled t =
      run_preserves (Shows size disabled)
        (λ s x u taken v. record {
          counts = step-Inv size disabled s x u taken v.counts;
          history = step-Served size disabled s x u taken v;
        })
        (start size disabled) es t e
        (record { counts = start-Inv size disabled; history = unfold start in empty }) in
    shown.history
