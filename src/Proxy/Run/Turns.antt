-- ===== src/Proxy/Run/Turns.antt =====
-- Requests of selenoid.go that do not interleave: the places that they release.
use selenoid.Base.{
  ℕ, ◌+◌, ◌≤◌, ◌≡◌, refl, sym, ap, ◌∙◌, Option, none, some, List, [], ◌∷◌, ◌++◌, Text, length,
  get_elem?, arith, Option-cases, inl, inr, ◌⊎◌, total,
}
use mathlib.Core.Path.{subst}
use mathlib.Core.Option.{some-injective}
use selenoid.Session.Store.{Session, len, new_map}
use selenoid.Proxy.{Settings, Request, start_timer, store_session}
use selenoid.Proxy.Run.{
  Pc, System, Event, store, proxy, forward, drive, move, fire, step, run, start, begin_drive,
  split_request_path,
}
use selenoid.Proxy.Steps.{get_elem?-append_new, get_elem?-lt}
use selenoid.Proxy.Run.Invariant.{Looked, begin_proxy-Looked, begin_forward-Looked, move_cases}
use selenoid.Proxy.Run.Places.{
  places, len-put, advance-places, Opened, begin-Opened, drive-Opened, fire-Opened,
}

-- What starts, and is done before the next thing starts.
pub data Turn : Type 0 where
  stores : Text → Session → Turn
  asks : Request → Turn
  forwards : Text → Turn
  drives : Text → Turn
  fires : ℕ → Turn

unfoldable pub opening : Turn → Event
opening (stores id s) = store id s
opening (asks q) = proxy q
opening (forwards p) = forward p
opening (drives p) = drive p
opening (fires n) = fire n

-- The request goes one step on from where it has looked its session up, if there is one.
unfoldable pub turn : Settings → System → Turn → Option System
unfolding opening
turn c s t = elim (run c s (opening t ∷ move (length s.requests) ∷ [])) [
  | none ↦ step c s (opening t)
  | some v ↦ some v
]

unfoldable pub turns : Settings → System → List Turn → Option System
turns c s [] = some s
turns c s (t ∷ ts) = elim (turn c s t) [ none ↦ none | some u ↦ turns c u ts ]

abbrev pub is_store : Turn → ℕ
is_store (stores id s) = 1
is_store _ = 0

asked_places :
    (s u : System)
    → Opened s u
    → (places u.server ≤ places s.server + 0) × (Opened s u ⊎ (u.requests ≡ s.requests))
asked_places s u opened =
    let (pc, shape, looked, same) : (pc : Pc) × (u.requests ≡ s.requests ++ (pc ∷ []))
        × Looked u.server pc
        × (places u.server ≡ places s.server) =
      unfold Opened in opened in
    (omega (arith, same), inl opened)

turn_stuck :
    (c : Settings) (s : System) (t : Turn) → step c s (opening t) ≡ none → turn c s t ≡ none
turn_stuck c s t e =
    let both : run c s (opening t ∷ move (length s.requests) ∷ []) ≡ none =
      unfold run in rw (e, run) in
    unfold turn in rw (both, turn, e)

turn_short :
    (c : Settings) (s u : System) (t : Turn)
    → step c s (opening t) ≡ some u
    → step c u (move (length s.requests)) ≡ none
    → turn c s t ≡ some u
turn_short c s u t e f =
    let both : run c s (opening t ∷ move (length s.requests) ∷ []) ≡ none =
      unfold run in rw (e, f, run) in
    unfold turn in rw (both, turn, e)

turn_long :
    (c : Settings) (s u v : System) (t : Turn)
    → step c s (opening t) ≡ some u
    → step c u (move (length s.requests)) ≡ some v
    → turn c s t ≡ some v
turn_long c s u v t e f =
    let both : run c s (opening t ∷ move (length s.requests) ∷ []) ≡ some v =
      unfold run in rw (e, f, run) in
    unfold turn in rw (both, turn)

-- What a step that begins a turn does to the places.
opening-places :
    (c : Settings) (s u : System) (t : Turn)
    → step c s (opening t) ≡ some u
    → (places u.server ≤ places s.server + is_store t) × (Opened s u ⊎ (u.requests ≡ s.requests))
unfolding step opening
opening-places c s u (stores id se) e =
    let more = len-put s.sessions id (length s.heap) in
    subst (λ x. (places x.server ≤ places s.server + 1) × (Opened s x ⊎ (x.requests ≡ s.requests)))
      (some-injective _ _ e) (unfold store_session start_timer in omega (arith, more), inr refl)
opening-places c s u (asks q) e =
    asked_places s u
      (subst (Opened s) (some-injective _ _ e) (begin-Opened s _ (begin_proxy-Looked s.server q)))
opening-places c s u (forwards p) e =
    asked_places s u
      (subst (Opened s) (some-injective _ _ e) (begin-Opened s _ (begin_forward-Looked s.server p)))
opening-places c s u (drives p) e = asked_places s u (
    subst (Opened s) (some-injective _ _ e)
      (unfold begin_drive in drive-Opened s (split_request_path p)))
opening-places c s u (fires n) e = asked_places s u (fire-Opened c s n u e)

-- The step that follows.
following_places :
    (c : Settings) (s u v : System)
    → Opened s u ⊎ (u.requests ≡ s.requests)
    → step c u (move (length s.requests)) ≡ some v
    → places v.server ≤ places u.server
unfolding step
following_places c s u v (inr same) e =
    let (pc, id, r, se, w, pc', at, points, here, taken, is) =
      move_cases c u (length s.requests) v e in
    let below =
      get_elem?-lt s.requests (length s.requests) pc
        (ap (λ x. get_elem? x (length s.requests)) (sym same) ∙ at) in
    absurd (omega arith)
following_places c s u v (inl opened) e =
    unfold Opened in
    let (pc, shape, looked, same) = opened in
    let (pc', id, r, se, w, pc'', at, points, here, taken, is) =
      move_cases c u (length s.requests) v e in
    let it : pc ≡ pc' = some-injective _ _ (
      sym (get_elem?-append_new s.requests pc)
      ∙ ap (λ x. get_elem? x (length s.requests)) (sym shape)
      ∙ at) in
    let looked' : Looked u.server pc' = subst (Looked u.server) it looked in
    subst (λ x. places x.server ≤ places u.server) is
      (advance-places c u.server pc' se w pc'' looked' taken)

turn-places :
    (c : Settings) (s v : System) (t : Turn)
    → turn c s t ≡ some v
    → places v.server ≤ places s.server + is_store t
turn-places c s v t e = elim (Option-cases (step c s (opening t))) [
  | inl stuck ↦ absurd (cc (e, turn_stuck c s t stuck))
  | inr (u, begun) ↦
      let (bound, opened) = opening-places c s u t begun in
      elim (Option-cases (step c u (move (length s.requests)))) [
        | inl over ↦
            let same : u ≡ v = some-injective _ _ (sym (turn_short c s u t begun over) ∙ e) in
            subst (λ x. places x.server ≤ places s.server + is_store t) same bound
        | inr (w, moved) ↦
            let same : w ≡ v = some-injective _ _ (sym (turn_long c s u w t begun moved) ∙ e) in
            let after = following_places c s u w opened moved in
            subst (λ x. places x.server ≤ places s.server + is_store t) same (omega arith)
      ]
]

turns-places :
    (c : Settings) (s : System) (ts : List Turn) (v : System)
    → turns c s ts ≡ some v
    → places v.server ≤ places s.server + total is_store ts
unfolding turns
turns-places c s [] v e =
    subst (λ x. places x.server ≤ places s.server + 0) (some-injective _ _ e) (omega arith)
turns-places c s (t ∷ ts) v e = elim (Option-cases (turn c s t)) [
  | inl stuck ↦ absurd (ground arith)
  | inr (u, taken) ↦
      let first = turn-places c s u t taken in
      let rest = turns-places c u ts v (rw (taken, turns) at e) in omega arith
]

-- Where requests do not interleave between the look-up of a session and its use, the places that were
-- released and the sessions in the map are together never more than the sessions that were stored.
pub turns-places_le :
    (c : Settings) (ts : List Turn) (v : System)
    → turns c start ts ≡ some v
    → v.releases + len v.sessions ≤ total is_store ts
turns-places_le c ts v e =
    let bound = turns-places c start ts v e in
    let none_yet : places (start.server) ≡ 0 = unfold start new_map len in refl in omega arith
