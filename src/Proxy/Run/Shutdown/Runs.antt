-- ===== src/Proxy/Run/Shutdown/Runs.antt =====
-- Every session that was ever stored is stopped, or it is in the map, after every run of selenoid.go in which no
-- two sessions have the same id.
use selenoid.Base.{
  ℕ, ◌<◌, ◌≡◌, refl, sym, ◌∙◌, Bool, true, false, not, Option, none, some, List, [], ◌∷◌, Text,
  length, get_elem?, All, All-append, All-set, All-get_elem?, Option-cases, inl, inr, ◌⊎◌, arith,
  lookup,
}
use mathlib.Core.Path.{subst}
use mathlib.Core.Option.{some-injective}
use selenoid.Session.Store.{Ref, get, new_map}
use selenoid.Proxy.{Settings, Server, Timer, store_session, serial}
use selenoid.Proxy.Run.{
  Pc, System, Event, pointer, finished, driving, store, proxy, forward, drive, move, fire, step,
  run, start, started, begin, begin_proxy, begin_drive, drive_to, split_request_path,
  delete_request, fire_timer,
}
use selenoid.Proxy.Run.Firing.{fire_server}
use selenoid.Proxy.Run.Invariant.{
  Looked, begin_proxy-Looked, begin_forward-Looked, driving-Looked, move_cases, unguarded,
}
use selenoid.Proxy.Run.Shutdown.Storing.{store-Held, store-Books}
use selenoid.Proxy.Run.Shutdown.Changes.{Same, Change, SameOrNo, advance-Change, serial-Same}
use selenoid.Proxy.Run.Shutdown.Accounts.{
  is_stored, is_stopped, Known, Books, Held, Looked-Held, Same-Books, Same-Held, Stopped-Books,
  Stopped-Held,
}

-- The ids that were stored after an event, and whether it stores no old one.
abbrev pub with_id : List Text → Event → List Text
with_id ids (store id s) = id ∷ ids
with_id ids _ = ids

abbrev pub is_new : List Text → Event → Bool
is_new ids (store id s) = not (is_stored id ids)
is_new ids _ = true

-- No two sessions have the same id.
abbrev pub Fresh : List Text → List Event → Type 0
Fresh ids [] = Unit {0}
Fresh ids (e ∷ es) = (is_new ids e ≡ true) × Fresh (with_id ids e) es

pub record Accounts (ids : List Text) (s : System) : Type 0 where
  pub books : Books ids s.server
  pub held : All (Held ids s.server) s.requests

held_on :
    (ids js : List Text) (w v : Server) (pcs : List Pc)
    → ((pc : Pc) → Held ids w pc → Held js v pc)
    → All (Held ids w) pcs
    → All (Held js v) pcs
held_on ids js w v [] f h = tt
held_on ids js w v (pc ∷ pcs) f h = (f pc h.0, held_on ids js w v pcs f h.1)

finished-Held : (ids : List Text) (w : Server) (pc : Pc) → pointer pc ≡ none → Held ids w pc
finished-Held ids w pc p id r e = absurd (cc)

started-Accounts :
    (ids : List Text) (s : System) (v : Server) (pc : Pc)
    → Same s.server v
    → Looked s.server pc
    → Accounts ids s
    → Accounts ids (started s (v, pc))
unfolding started
started-Accounts ids s v pc same looked h = record {
  books = Same-Books ids s.server v same h.books;
  held =
      All-append (Held ids v) s.requests (pc ∷ [])
        (held_on ids ids s.server v s.requests (λ p. Same-Held ids s.server v p same) h.held)
        (Same-Held ids s.server v pc same (Looked-Held ids s.server pc h.books looked), tt);
}

unchanged : (w : Server) → Same w w
unchanged w = record { sessions = refl; count = refl; stopped = refl }

begin-Accounts :
    (ids : List Text) (s : System) (pc : Pc)
    → Looked s.server pc
    → Accounts ids s
    → Accounts ids (begin s pc)
unfolding begin
begin-Accounts ids s pc looked h =
    started-Accounts ids s (serial s.server) pc (serial-Same s.server s.server (unchanged s.server))
      looked h

finished-Looked : (w : Server) (pc : Pc) → pointer pc ≡ none → Looked w pc
finished-Looked w pc p id r e = absurd (cc)

drive-Accounts :
    (ids : List Text) (s : System) (o : Option (Text × Text))
    → Accounts ids s
    → Accounts ids (started s (drive_to s.server o))
unfolding drive_to pointer
drive-Accounts ids s none h =
    started-Accounts ids s s.server (finished none) (unchanged s.server)
      (finished-Looked s.server (finished none) refl) h
drive-Accounts ids s (some (i, p)) h = elim (Option-cases (get s.sessions i)) [
  | inl gone ↦
      rw (gone, drive_to)
        (started-Accounts ids s (serial s.server) (finished none)
          (serial-Same s.server s.server (unchanged s.server))
          (finished-Looked s.server (finished none) refl) h)
  | inr (q, there) ↦
      rw (there, drive_to)
        (started-Accounts ids s s.server (driving i q) (unchanged s.server)
          (driving-Looked s.server i q there) h)
]

fire-Same : (w : Server) (n : ℕ) (t : Timer) → Same w (fire_server w n t)
fire-Same w n t = record { sessions = refl; count = refl; stopped = refl }

fire-Accounts :
    (c : Settings) (ids : List Text) (s : System) (n : ℕ) (v : System)
    → fire_timer c s n (get_elem? s.timers n) ≡ some v
    → Accounts ids s
    → Accounts ids v
unfolding fire_timer
fire-Accounts c ids s n v e h = elim (Option-cases (get_elem? s.timers n)) [
  | inl gone ↦ absurd (ground arith)
  | inr (t, here) ↦
      let next : Accounts ids (record s { server = fire_server s.server n t }) = record {
        books = Same-Books ids s.server (fire_server s.server n t) (fire-Same s.server n t) h.books;
        held =
            held_on ids ids s.server (fire_server s.server n t) s.requests
              (λ p. Same-Held ids s.server (fire_server s.server n t) p (fire-Same s.server n t))
              h.held;
      } in
      let shape : begin (record s { server = fire_server s.server n t })
            (begin_proxy s.sessions (delete_request c t.sid))
          ≡ v =
        unguarded t.closed t.fired _ v (rw (here, fire_timer) at e) in
      subst (Accounts ids) shape (
        begin-Accounts ids _ _
          (begin_proxy-Looked (fire_server s.server n t) (delete_request c t.sid)) next)
]

changed-Held :
    (ids : List Text) (id : Text) (r : Ref) (w v : Server) (pc : Pc)
    → Change id r w v
    → Held ids w pc
    → Held ids v pc
changed-Held ids id r w v pc (inl same) = Same-Held ids w v pc same
changed-Held ids id r w v pc (inr over) = Stopped-Held ids id r w v pc over

changed-Books :
    (ids : List Text) (id : Text) (r : Ref) (w v : Server)
    → Change id r w v
    → Known ids w id r
    → Books ids w
    → Books ids v
changed-Books ids id r w v (inl same) known = Same-Books ids w v same
changed-Books ids id r w v (inr over) known = Stopped-Books ids id r w v over known

same_or_no-Held :
    (ids : List Text) (w : Server) (pc pc' : Pc) → SameOrNo pc pc' → Held ids w pc → Held ids w pc'
same_or_no-Held ids w pc pc' (inl none_left) held id r e = finished-Held ids w pc' none_left id r e
same_or_no-Held ids w pc pc' (inr same) held id r e = held id r (sym same ∙ e)

step-Accounts :
    (c : Settings) (ids : List Text) (s : System) (e : Event) (v : System)
    → step c s e ≡ some v
    → is_new ids e ≡ true
    → Accounts ids s
    → Accounts (with_id ids e) v
unfolding step
step-Accounts c ids s (store id se) v e new h =
    let fresh : is_stored id ids ≡ false = ground arith in
    subst (Accounts (id ∷ ids)) (some-injective _ _ e) (record {
      books = store-Books ids s.server id se fresh h.books;
      held =
          held_on ids (id ∷ ids) s.server (store_session id se s.server) s.requests
            (λ pc. store-Held ids s.server id se pc fresh) h.held;
    })
step-Accounts c ids s (proxy q) v e new h =
    subst (Accounts ids) (some-injective _ _ e)
      (begin-Accounts ids s _ (begin_proxy-Looked s.server q) h)
step-Accounts c ids s (forward p) v e new h =
    subst (Accounts ids) (some-injective _ _ e)
      (begin-Accounts ids s _ (begin_forward-Looked s.server p) h)
step-Accounts c ids s (drive p) v e new h =
    subst (Accounts ids) (some-injective _ _ e)
      (unfold begin_drive in drive-Accounts ids s (split_request_path p) h)
step-Accounts c ids s (move i) v e new h =
    let (pc, id, r, se, w, pc', at, points, here, taken, shape) = move_cases c s i v e in
    let held = All-get_elem? (Held ids s.server) s.requests i pc h.held at in
    let (change, next) = advance-Change c s.server pc id r se w pc' points taken in
    subst (Accounts ids) shape (record {
      books = changed-Books ids id r s.server w change (held id r points) h.books;
      held =
          All-set (Held ids w) s.requests i pc'
            (held_on ids ids s.server w s.requests (λ p. changed-Held ids id r s.server w p change)
              h.held)
            (changed-Held ids id r s.server w pc' change
              (same_or_no-Held ids s.server pc pc' next held));
    })
step-Accounts c ids s (fire n) v e new h = fire-Accounts c ids s n v e h

pub run-Kept :
    (c : Settings) (ids : List Text) (s : System) (es : List Event) (v : System)
    → run c s es ≡ some v
    → Fresh ids es
    → Accounts ids s
    → (r : Ref) → r < length v.heap
    → (is_stopped v.server r ≡ true) ⊎ ((id : Text) × (get v.sessions id ≡ some r))
unfolding run
run-Kept c ids s [] v e fresh h =
    subst
      (λ u.
        (r : Ref)
        → r < length u.heap
        → (is_stopped u.server r ≡ true) ⊎ ((id : Text) × (get u.sessions id ≡ some r)))
      (some-injective _ _ e) h.books.kept
run-Kept c ids s (x ∷ es) v e fresh h = elim (Option-cases (step c s x)) [
  | inl stuck ↦ absurd (ground arith)
  | inr (u, taken) ↦
      run-Kept c (with_id ids x) u es v (rw (taken, run) at e) fresh.1
        (step-Accounts c ids s x u taken fresh.0 h)
]

pub start-Accounts : Accounts [] start
unfolding start new_map get lookup
start-Accounts = record {
  books = record { kept = λ r lt. absurd (omega (arith, lt)); known = λ id r e. absurd (cc) };
  held = tt;
}
