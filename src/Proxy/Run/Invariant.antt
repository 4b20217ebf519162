-- ===== src/Proxy/Run/Invariant.antt =====
-- Every session in the map of selenoid.go is watched by a timer, after every run.
use selenoid.Base.{
  ℕ, ◌≡◌, sym, ap, ◌∙◌, Bool, true, false, Option, none, some, List, [], ◌∷◌, ◌++◌, Text, get_elem?,
  set, arith, Option-cases, inl, inr, All, All-append, All-get_elem?, All-set, if◌then◌else◌,
  lookup,
}
use mathlib.Core.Path.{subst}
use mathlib.Core.Option.{some-injective}
use selenoid.Paths.{split}
use selenoid.Session.Store.{Ref, Session, SessionMap, new_map, get}
use selenoid.Proxy.{Settings, Request, Server, serial}
use selenoid.Proxy.Run.{
  Pc, System, Event, pointer, advance, driving, store, proxy, forward, drive, move, fire, step, run,
  start, started, begin, begin_proxy, begin_forward, begin_drive, find_session, look_up, forward_to,
  drive_to, split_request_path, delete_request, move_request, with_pointer, with_session, moved,
  fire_timer,
}
use selenoid.Proxy.Watched.{Watched, Kept}
use selenoid.Proxy.Ending.{store-Kept, store-Watched}
use selenoid.Proxy.Run.Interleavings.{
  Fine, Asked, same-Fine, serial-Fine, later_Asked, advance-Fine, finished-Asked,
}
use selenoid.Proxy.Run.Firing.{fire_server, fire-Fine}

-- The map holds watched sessions, and no request holds a pointer to a session of another name.
pub record Inv (s : System) : Type 0 where
  pub watched : Watched s.server
  pub asked : All (Asked s.server) s.requests

All-later : (w v : Server) (pcs : List Pc) → Kept w v → All (Asked w) pcs → All (Asked v) pcs
All-later w v [] kept h = tt
All-later w v (pc ∷ pcs) kept h = (later_Asked w v pc kept h.0, All-later w v pcs kept h.1)

-- A new request that has looked its session up.
abbrev pub Looked : Server → Pc → Type 0
Looked w pc = (id : Text) (r : Ref) → pointer pc ≡ some (id, r) → get w.sessions id ≡ some r

Looked-Asked : (w : Server) (pc : Pc) → Watched w → Looked w pc → Asked w pc
Looked-Asked w pc h looked id r e = (h.alive id r (looked id r e)).0

started-Inv :
    (s : System) (v : Server) (pc : Pc)
    → Inv s
    → Fine s.server v
    → Asked s.server pc
    → Inv (started s (v, pc))
unfolding started
started-Inv s v pc h fine asked = record {
  watched = fine.watched;
  asked =
      All-later s.server v (s.requests ++ (pc ∷ [])) fine.kept
        (All-append (Asked s.server) s.requests (pc ∷ []) h.asked (asked, tt));
}

begin-Inv : (s : System) (pc : Pc) → Inv s → Asked s.server pc → Inv (begin s pc)
unfolding begin
begin-Inv s pc h asked =
    started-Inv s (serial s.server) pc h (serial-Fine _ _ (same-Fine _ h.watched)) asked

found_proxy :
    (m : SessionMap) (q : Request) (fragments : List Text) (id : Text) (r : Ref)
    → pointer (find_session m q fragments) ≡ some (id, r)
    → get m id ≡ some r
unfolding find_session look_up pointer
found_proxy m q [] id r e = absurd (cc)
found_proxy m q (a ∷ []) id r e = absurd (cc)
found_proxy m q (a ∷ b ∷ []) id r e = absurd (cc)
found_proxy m q (a ∷ b ∷ i ∷ rest) id r e = elim (Option-cases (get m i)) [
  | inl gone ↦ absurd (ground arith)
  | inr (q', there) ↦
      let pair : (i, q') ≡ (id, r) = some-injective _ _ (rw (there, pointer) at e) in
      ap (get m) (sym (ap (λ x. x.0) pair)) ∙ there ∙ ap (λ x. some (x.1)) pair
]

pub begin_proxy-Looked : (w : Server) (q : Request) → Looked w (begin_proxy w.sessions q)
unfolding begin_proxy
begin_proxy-Looked w q id r e = found_proxy w.sessions q (split q.path) id r e

found_forward :
    (m : SessionMap) (o : Option (Text × Text)) (id : Text) (r : Ref)
    → pointer (forward_to m o) ≡ some (id, r)
    → get m id ≡ some r
unfolding forward_to pointer
found_forward m none id r e = absurd (cc)
found_forward m (some (i, p)) id r e = elim (Option-cases (get m i)) [
  | inl gone ↦ absurd (ground arith)
  | inr (q', there) ↦
      let pair : (i, q') ≡ (id, r) = some-injective _ _ (rw (there, forward_to, pointer) at e) in
      ap (get m) (sym (ap (λ x. x.0) pair)) ∙ there ∙ ap (λ x. some (x.1)) pair
]

pub begin_forward-Looked : (w : Server) (p : Text) → Looked w (begin_forward w.sessions p)
unfolding begin_forward
begin_forward-Looked w p id r e = found_forward w.sessions (split_request_path p) id r e

pub driving-Looked :
    (w : Server) (i : Text) (q : Ref) → get w.sessions i ≡ some q → Looked w (driving i q)
unfolding pointer
driving-Looked w i q there id r e =
    let pair : Path (Text × Ref) (i, q) (id, r) = some-injective _ _ e in
    ap (get w.sessions) (sym (ap (λ x. x.0) pair)) ∙ there ∙ ap (λ x. some (x.1)) pair

drive_to-Inv :
    (s : System) (o : Option (Text × Text)) → Inv s → Inv (started s (drive_to s.server o))
unfolding drive_to
drive_to-Inv s none h =
    started-Inv s s.server _ h (same-Fine _ h.watched) (finished-Asked s.server _)
drive_to-Inv s (some (i, p)) h = elim (Option-cases (get s.sessions i)) [
  | inl gone ↦
      rw (gone, drive_to)
        (started-Inv s (serial s.server) _ h (serial-Fine _ _ (same-Fine _ h.watched))
          (finished-Asked s.server _))
  | inr (q, there) ↦
      rw (there, drive_to)
        (started-Inv s s.server (driving i q) h (same-Fine s.server h.watched)
          (Looked-Asked s.server (driving i q) h.watched (driving-Looked s.server i q there)))
]

pub unguarded {ℓ} :
    {A : Type ℓ} (b d : Bool) (x v : A)
    → (if b then none else if d then none else some x) ≡ some v
    → x ≡ v
unguarded true d x v e = absurd (cc)
unguarded false true x v e = absurd (cc)
unguarded false false x v e = some-injective _ _ e

fire_timer-Inv :
    (c : Settings) (s : System) (n : ℕ) (v : System)
    → Inv s
    → fire_timer c s n (get_elem? s.timers n) ≡ some v
    → Inv v
unfolding fire_timer
fire_timer-Inv c s n v h e = elim (Option-cases (get_elem? s.timers n)) [
  | inl gone ↦ absurd (ground arith)
  | inr (t, here) ↦
      let fine = fire-Fine s.server n t h.watched here in
      let next : Inv (record s { server = fire_server s.server n t }) = record {
        watched = fine.watched;
        asked = All-later s.server _ s.requests fine.kept h.asked;
      } in
      let look : Looked (fire_server s.server n t)
          (begin_proxy s.sessions (delete_request c t.sid)) =
        begin_proxy-Looked (fire_server s.server n t) (delete_request c t.sid) in
      let shape : begin (record s { server = fire_server s.server n t })
            (begin_proxy s.sessions (delete_request c t.sid))
          ≡ v =
        unguarded t.closed t.fired _ v (rw (here, fire_timer) at e) in
      subst Inv shape (begin-Inv _ _ next (Looked-Asked _ _ fine.watched look))
]

-- A step of one request, taken apart.
pub move_cases :
    (c : Settings) (s : System) (i : ℕ) (v : System)
    → move_request c s i (get_elem? s.requests i) ≡ some v
    → (pc : Pc) × (id : Text) × (r : Ref) × (se : Session) × (w : Server) × (pc' : Pc) × (get_elem?
          s.requests i
        ≡ some pc)
      × (pointer pc ≡ some (id, r))
      × (get_elem? s.heap r ≡ some se)
      × (advance c s.server pc se ≡ some (w, pc'))
      × (record { server = w; requests = set s.requests i pc' } ≡ v)
unfolding move_request with_pointer with_session moved
move_cases c s i v e = elim (Option-cases (get_elem? s.requests i)) [
  | inl gone ↦ absurd (ground arith)
  | inr (pc, at) ↦ elim (Option-cases (pointer pc)) [
    | inl over ↦ absurd (ground arith)
    | inr ((id, r), points) ↦ elim (Option-cases (get_elem? s.heap r)) [
      | inl wild ↦ absurd (ground arith)
      | inr (se, here) ↦ elim (Option-cases (advance c s.server pc se)) [
        | inl stuck ↦ absurd (ground arith)
        | inr ((w, pc'), taken) ↦ (pc, id, r, se, w, pc', at, points, here, taken, ground arith)
      ]
    ]
  ]
]

step-Inv :
    (c : Settings) (s : System) (e : Event) (v : System) → step c s e ≡ some v → Inv s → Inv v
unfolding step
step-Inv c s (store id se) v e h = subst Inv (some-injective _ _ e) (record {
  watched = store-Watched s.server id se h.watched;
  asked = All-later s.server _ s.requests (store-Kept s.server id se) h.asked;
})
step-Inv c s (proxy q) v e h =
    subst Inv (some-injective _ _ e)
      (begin-Inv s _ h (Looked-Asked s.server _ h.watched (begin_proxy-Looked s.server q)))
step-Inv c s (forward p) v e h =
    subst Inv (some-injective _ _ e)
      (begin-Inv s _ h (Looked-Asked s.server _ h.watched (begin_forward-Looked s.server p)))
step-Inv c s (drive p) v e h =
    subst Inv (some-injective _ _ e) (unfold begin_drive in drive_to-Inv s (split_request_path p) h)
step-Inv c s (move i) v e h =
    let (pc, id, r, se, w, pc', at, points, here, taken, shape) = move_cases c s i v e in
    let asked = All-get_elem? (Asked s.server) s.requests i pc h.asked at in
    let (fine, later) =
      advance-Fine c s.server pc id r se w pc' h.watched (asked id r points) points here taken in
    subst Inv shape (record {
      watched = fine.watched;
      asked =
          All-set (Asked w) s.requests i pc' (All-later s.server w s.requests fine.kept h.asked)
            (later asked);
    })
step-Inv c s (fire n) v e h = fire_timer-Inv c s n v h e

start-Inv : Inv start
unfolding start new_map get lookup
start-Inv = record {
  watched = record {
    sound = record { timed = λ r s e. absurd (cc); apart = λ r q s u e f same. absurd (cc) };
    alive = λ id r e. absurd (cc);
  };
  asked = tt;
}

run-Inv_from :
    (c : Settings) (s : System) (es : List Event) (v : System) → run c s es ≡ some v → Inv s → Inv v
unfolding run
run-Inv_from c s [] v e h = subst Inv (some-injective _ _ e) h
run-Inv_from c s (x ∷ es) v e h = elim (Option-cases (step c s x)) [
  | inl stuck ↦ absurd (ground arith)
  | inr (u, taken) ↦ run-Inv_from c u es v (rw (taken, run) at e) (step-Inv c s x u taken h)
]

-- After any interleaving of new sessions, proxied requests, forwarded connections and timers, every
-- session in the map has a timer whose channel is open and whose time-out deletes that session, and no
-- two sessions share a timer.
pub run-Watched :
    (c : Settings) (es : List Event) (v : System) → run c start es ≡ some v → Watched v.server
run-Watched c es v e = (run-Inv_from c start es v e start-Inv).watched
