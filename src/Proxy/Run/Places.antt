-- ===== src/Proxy/Run/Places.antt =====
-- What the requests of selenoid.go do to the places in the queue.
use selenoid.Base.{
  by_test, ℕ, ◌+◌, ◌≤◌, ◌≡◌, refl, ap, ◌&&◌, Option, none, some, List, [], ◌∷◌, ◌++◌, Text,
  get_elem?, arith, Option-cases, Bool-cases, inl, inr, text_eq, lookup, insert, delete,
}
use mathlib.Core.Path.{subst}
use mathlib.Core.Option.{some-injective}
use selenoid.Session.Store.{Ref, Session, SessionMap, get, put, remove, len, ensure}
use selenoid.Proxy.{
  Settings, Request, Server, stop_timer, start_timer, renew, end_session, direct, serial, wipe,
  is_vendor, is_empty,
}
use selenoid.Proxy.Run.{
  Pc, System, pointer, advance, proxying, forwarding, driving, finished, started, begin,
  begin_proxy, drive_to, after_direct, delete_request, fire_timer,
}
use selenoid.Proxy.Run.Firing.{fire_server}
use selenoid.Proxy.Run.Invariant.{Looked, begin_proxy-Looked, driving-Looked, unguarded}

-- The places that were released, and those of the sessions in the map.
abbrev pub places : Server → ℕ
places w = w.releases + len w.sessions

pub len-put : (m : SessionMap) (id : Text) (r : Ref) → len (put m id r) ≤ len m + 1
unfolding len put insert
len-put [] id r = omega arith
len-put ((j, q) ∷ m) id r = elim (Bool-cases (text_eq j id)) [
  | inl here ↦ rw here (omega arith)
  | inr away ↦ rw away (omega (arith, len-put m id r))
]

len-remove_le : (m : SessionMap) (id : Text) → len (remove m id) ≤ len m
unfolding len remove delete
len-remove_le [] id = omega arith
len-remove_le ((j, q) ∷ m) id = elim (Bool-cases (text_eq j id)) [
  | inl here ↦ rw here (omega (arith, len-remove_le m id))
  | inr away ↦ rw away (omega (arith, len-remove_le m id))
]

len-remove :
    (m : SessionMap) (id : Text) (r : Ref) → get m id ≡ some r → len (remove m id) + 1 ≤ len m
unfolding len remove delete get lookup
len-remove [] id r e = absurd (cc)
len-remove ((j, q) ∷ m) id r e = elim (Bool-cases (text_eq j id)) [
  | inl here ↦ let le = len-remove_le m id in rw here (omega (arith, le))
  | inr away ↦ rw away (omega (arith, len-remove m id r (rw (away, lookup) at e)))
]

end_places :
    (c : Settings) (id : Text) (r : Ref) (s : Session) (w : Server)
    → get w.sessions id ≡ some r
    → places (end_session c id r (stop_timer s w)) ≤ places w
unfolding end_session stop_timer wipe
end_places c id r s w e = elim (Bool-cases c.enable_file_upload) [
  | inl wipes ↦ rw wipes (omega (arith, len-remove w.sessions id r e))
  | inr keeps ↦ rw keeps (omega (arith, len-remove w.sessions id r e))
]

places-renew : (id : Text) (r : Ref) (s : Session) (w : Server) → places (renew id r s w) ≡ places w
unfolding stop_timer start_timer
places-renew id r s w = refl

places-direct :
    (c : Settings) (q : Request) (id : Text) (rest : List Text) (r : Ref) (s : Session) (w : Server)
    → get w.sessions id ≡ some r
    → places (direct c q id rest r s w).0 ≤ places w
unfolding direct
places-direct c q id rest r s w e =
    let same = places-renew id r s w in
    by_test (λ (x : Server × Option Request). places (x.0) ≤ places w) (is_vendor rest) _ _
      (omega arith)
      (by_test (λ (x : Server × Option Request). places (x.0) ≤ places w)
        (q.is_delete && is_empty rest) _ _ (end_places c id r s w e) (omega (arith, same)))

pub advance-places :
    (c : Settings) (w : Server) (pc : Pc) (s : Session) (v : Server) (pc' : Pc)
    → Looked w pc
    → advance c w pc s ≡ some (v, pc')
    → places v ≤ places w
unfolding advance after_direct pointer serial
advance-places c w (proxying q id rest r) s v pc' h e =
    subst (λ x. places x ≤ places w) (ap (λ x. x.0) (some-injective _ _ e))
      (places-direct c q id rest r s w (h id r refl))
advance-places c w (forwarding id r) s v pc' h e =
    let same = places-renew id r s w in
    subst (λ x. places x ≤ places w) (ap (λ x. x.0) (some-injective _ _ e)) (omega (arith, same))
advance-places c w (driving id r) s v pc' h e = elim (Bool-cases (ensure w.sessions id r)) [
  | inl there ↦
      let same = places-renew id r s w in
      let result = some-injective _ _ (rw (there, advance) at e) in
      subst (λ x. places x ≤ places w) (ap (λ x. x.0) result) (omega (arith, same))
  | inr gone ↦
      let result = some-injective _ _ (rw (gone, advance) at e) in
      subst (λ x. places x ≤ places w) (ap (λ x. x.0) result) (omega arith)
]
advance-places c w (finished q) s v pc' h e = absurd (cc)

-- A request has looked its session up, and has changed no place.
unfoldable pub Opened : System → System → Type 0
Opened s u =
    (pc : Pc) × (u.requests ≡ s.requests ++ (pc ∷ []))
    × Looked u.server pc
    × (places u.server ≡ places s.server)

pub begin-Opened : (s : System) (pc : Pc) → Looked s.server pc → Opened s (begin s pc)
unfolding Opened begin started serial
begin-Opened s pc h = (pc, refl, h, refl)

pub drive-Opened :
    (s : System) (o : Option (Text × Text)) → Opened s (started s (drive_to s.server o))
unfolding Opened drive_to started
drive-Opened s none = (finished none, refl, unfold pointer in (λ id r e. absurd (cc)), refl)
drive-Opened s (some (i, p)) = elim (Option-cases (get s.sessions i)) [
  | inl gone ↦
      rw (gone, drive_to)
        (finished none, refl, (unfold pointer in λ id r e. absurd (cc)), unfold serial in refl)
  | inr (q, there) ↦
      rw (there, drive_to) (driving i q, refl, driving-Looked s.server i q there, refl)
]

pub fire-Opened :
    (c : Settings) (s : System) (n : ℕ) (u : System)
    → fire_timer c s n (get_elem? s.timers n) ≡ some u
    → Opened s u
unfolding fire_timer Opened
fire-Opened c s n u e = elim (Option-cases (get_elem? s.timers n)) [
  | inl gone ↦ absurd (ground arith)
  | inr (t, here) ↦
      let shape : begin (record s { server = fire_server s.server n t })
            (begin_proxy s.sessions (delete_request c t.sid))
          ≡ u =
        unguarded t.closed t.fired _ u (rw (here, fire_timer) at e) in
      subst (Opened s) shape (
        (begin-Opened (record s { server = fire_server s.server n t }) _
          (begin_proxy-Looked (fire_server s.server n t) (delete_request c t.sid))))
]
