-- ===== src/Proxy/Run/Deletion.antt =====
-- What ends with a session of selenoid.go.
use selenoid.Base.{
  ◌+◌, ◌≡◌, refl, ◌≢◌, sym, ap, ◌∙◌, true, none, some, [], ◌∷◌, ◌++◌, Text, length, get_elem?, set,
  arith, text_eq_iff, lookup-delete, lookup-delete_self,
}
use mathlib.Core.Path.{subst}
use mathlib.Core.Option.{some-injective}
use selenoid.Paths.{split}
use selenoid.Session.Store.{Ref, Session, SessionMap, get, remove}
use selenoid.Proxy.{
  Settings, Request, Timer, Server, serial, direct, end_session, stop_timer, to_browser, is_vendor,
  is_empty, wipe,
}
use selenoid.Proxy.Run.{
  System, Event, pointer, advance, proxying, finished, move, step, run, begin, started, begin_proxy,
  find_session, look_up, move_request, with_pointer, with_session, moved, after_direct,
}
use selenoid.Proxy.Steps.{get_elem?-append_new, get_elem?-close_same}

-- What has to be true of the server where the session `r` named `id` has ended, against the server `w` in
-- which it ran: it is out of the map and nothing else is, its `Cancel` was called once, one place in the
-- queue was released, and its timer is cancelled.
pub record Ended (w : Server) (id : Text) (r : Ref) (v : Server) : Type 0 where
  pub gone : get v.sessions id ≡ none
  pub others : (id' : Text) → id ≢ id' → get v.sessions id' ≡ get w.sessions id'
  pub released : v.releases ≡ w.releases + 1
  pub cancelled : v.stopped ≡ r ∷ w.stopped
  pub timer :
      (se : Session) (t : Timer)
      → get_elem? w.heap r ≡ some se
      → get_elem? w.timers se.timeout_ch ≡ some t
      → (t' : Timer) × (get_elem? v.timers se.timeout_ch ≡ some t') × (t'.closed ≡ true)

removed_self : (m : SessionMap) (id : Text) → get (remove m id) id ≡ none
unfolding get remove
removed_self m id = lookup-delete_self id m

removed_other : (m : SessionMap) (id id' : Text) → id ≢ id' → get (remove m id) id' ≡ get m id'
unfolding get remove
removed_other m id id' ne = ground (arith, text_eq_iff id id', lookup-delete id id' m, ne)

end_fields :
    (c : Settings) (id : Text) (r : Ref) (w : Server)
    → ((end_session c id r w).sessions ≡ remove w.sessions id)
      × ((end_session c id r w).releases ≡ w.releases + 1)
      × ((end_session c id r w).stopped ≡ r ∷ w.stopped)
      × ((end_session c id r w).timers ≡ w.timers)
unfolding end_session wipe
end_fields c id r w = ground arith

pub end-Ended :
    (c : Settings) (id : Text) (r : Ref) (se : Session) (w : Server)
    → get_elem? w.heap r ≡ some se
    → Ended w id r (end_session c id r (stop_timer se (serial w)))
unfolding stop_timer serial
end-Ended c id r se w here =
    let (sessions, releases, stopped, timers) = end_fields c id r (stop_timer se (serial w)) in
    record {
      gone = ap (λ m. get m id) sessions ∙ removed_self w.sessions id;
      others = λ id' ne. ap (λ m. get m id') sessions ∙ removed_other w.sessions id id' ne;
      released = releases;
      cancelled = stopped;
      timer = λ se' t here' armed.
          let is : se ≡ se' = some-injective _ _ (sym here ∙ here') in
          (
            record t { closed = true },
            ap (λ ts. get_elem? ts se'.timeout_ch) timers
                ∙ subst
                    (λ u.
                      get_elem? (stop_timer u (serial w)).timers se'.timeout_ch
                      ≡ some (record t { closed = true }))
                    (sym is) (get_elem?-close_same w.timers se'.timeout_ch t armed),
            refl,
          );
    }

pub find_delete :
    (w : SessionMap) (q : Request) (a b id : Text) (r : Ref)
    → split q.path ≡ a ∷ b ∷ id ∷ []
    → get w id ≡ some r
    → begin_proxy w q ≡ proxying q id [] r
unfolding begin_proxy find_session look_up
find_delete w q a b id r path there = ap (find_session w q) path ∙ rw (there, look_up)

-- The last request, taken one step on.
pub move_last :
    (c : Settings) (s : System) (q : Request) (id : Text) (r : Ref) (se : Session)
    → q.is_delete ≡ true
    → get_elem? s.heap r ≡ some se
    → (v : System) × (step c (begin s (proxying q id [] r)) (move (length s.requests)) ≡ some v)
      × (v.server ≡ end_session c id r (stop_timer se (serial s.server)))
unfolding step move_request with_pointer with_session moved pointer advance after_direct begin
    started direct is_vendor is_empty serial
move_last c s q id r se delete here =
    let w = serial s.server in
    let pc = finished (some (to_browser se q)) in
    (
      record {
        server = end_session c id r (stop_timer se w);
        requests = set (s.requests ++ (proxying q id [] r ∷ [])) (length s.requests) pc;
      },
      rw (get_elem?-append_new s.requests (proxying q id [] r), here, delete),
      refl,
    )

pub run_two :
    (c : Settings) (s u v : System) (x y : Event)
    → step c s x ≡ some u
    → step c u y ≡ some v
    → run c s (x ∷ y ∷ []) ≡ some v
unfolding run
run_two c s u v x y e f = rw (e, f, run)
