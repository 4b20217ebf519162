-- ===== src/Proxy/Run/Shutdown/Accounts.antt =====
-- The books on the sessions of selenoid.go: each that was ever stored is stopped, or it is in the map.
use selenoid.Base.{
  ◌<◌, ◌≡◌, ◌≢◌, sym, ap, ◌∙◌, Bool, true, none, some, List, ◌∷◌, Text, text_eq, text_eq_iff,
  length, any, inl, inr, ◌⊎◌, arith, ◌==◌, lookup-insert, lookup-delete,
}
use mathlib.Core.Path.{subst}
use mathlib.Core.Option.{some-injective}
use selenoid.Session.Store.{Ref, SessionMap, get, put, remove}
use selenoid.Proxy.{Server}
use selenoid.Proxy.Ending.{remove_cases}
use selenoid.Proxy.Run.{Pc, pointer}
use selenoid.Proxy.Run.Invariant.{Looked}
use selenoid.Proxy.Run.Shutdown.Changes.{Same, Stopped}

abbrev pub is_stored : Text → List Text → Bool
is_stored id ids = any (text_eq id) ids

abbrev pub is_stopped : Server → Ref → Bool
is_stopped w r = any (λ q. q == r) w.stopped

abbrev pub Known : List Text → Server → Text → Ref → Type 0
Known ids w id r =
    (is_stored id ids ≡ true) × ((get w.sessions id ≡ none) ⊎ (get w.sessions id ≡ some r))

-- The books on the sessions, where those with these ids were stored.
pub record Books (ids : List Text) (w : Server) : Type 0 where
  pub kept :
      (r : Ref)
      → r < length w.heap
      → (is_stopped w r ≡ true) ⊎ ((id : Text) × (get w.sessions id ≡ some r))
  pub known : (id : Text) (r : Ref) → get w.sessions id ≡ some r → is_stored id ids ≡ true

abbrev pub Held : List Text → Server → Pc → Type 0
Held ids w pc = (id : Text) (r : Ref) → pointer pc ≡ some (id, r) → Known ids w id r

pub Looked-Held :
    (ids : List Text) (w : Server) (pc : Pc) → Books ids w → Looked w pc → Held ids w pc
Looked-Held ids w pc b looked id r e = let there = looked id r e in (b.known id r there, inr there)

pub Same-Books : (ids : List Text) (w v : Server) → Same w v → Books ids w → Books ids v
Same-Books ids w v h b = record {
  kept = λ r lt. elim (b.kept r (subst (λ n. r < n) h.count lt)) [
    | inl over ↦ inl (ap (any (λ q. q == r)) h.stopped ∙ over)
    | inr (id, there) ↦ inr (id, ap (λ m. get m id) h.sessions ∙ there)
  ];
  known = λ id r e. b.known id r (ap (λ m. get m id) (sym h.sessions) ∙ e);
}

pub Same-Held :
    (ids : List Text) (w v : Server) (pc : Pc) → Same w v → Held ids w pc → Held ids v pc
Same-Held ids w v pc h held id r e =
    let (known, there) = held id r e in
    (known, subst (λ m. (get m id ≡ none) ⊎ (get m id ≡ some r)) (sym h.sessions) there)

removed_none : (m : SessionMap) (id i : Text) → get m i ≡ none → get (remove m id) i ≡ none
unfolding get remove
removed_none m id i e = ground (arith, text_eq_iff id i, lookup-delete id i m)

removed :
    (m : SessionMap) (id i : Text) (q : Ref)
    → get m i ≡ some q
    → ((id ≡ i) × (get (remove m id) i ≡ none)) ⊎ (get (remove m id) i ≡ some q)
unfolding get remove
removed m id i q e = ground (arith, text_eq_iff id i, lookup-delete id i m)

pub Stopped-Held :
    (ids : List Text) (id : Text) (r : Ref) (w v : Server) (pc : Pc)
    → Stopped id r w v
    → Held ids w pc
    → Held ids v pc
Stopped-Held ids id r w v pc h held i q e =
    let (known, there) = held i q e in
    (
      known,
      subst (λ m. (get m i ≡ none) ⊎ (get m i ≡ some q)) (sym h.sessions)
          (elim there [
            | inl gone ↦ inl (removed_none w.sessions id i gone)
            | inr here ↦ elim (removed w.sessions id i q here) [
              | inl (same, gone) ↦ inl gone
              | inr still ↦ inr still
            ]
          ]),
    )

pub is_stopped-cons :
    (r q : Ref) (qs : List Ref)
    → (r ≡ q) ⊎ (any (λ x. x == q) qs ≡ true)
    → any (λ x. x == q) (r ∷ qs) ≡ true
is_stopped-cons r q qs h = ground arith

pub Stopped-Books :
    (ids : List Text) (id : Text) (r : Ref) (w v : Server)
    → Stopped id r w v
    → Known ids w id r
    → Books ids w
    → Books ids v
Stopped-Books ids id r w v h (known, there) b = record {
  kept = λ q lt. elim (b.kept q (subst (λ n. q < n) h.count lt)) [
    | inl over ↦ inl (ap (any (λ x. x == q)) h.stopped ∙ is_stopped-cons r q w.stopped (inr over))
    | inr (i, at) ↦ elim (removed w.sessions id i q at) [
      | inl (same, gone) ↦ inl (
          ap (any (λ x. x == q)) h.stopped
          ∙ is_stopped-cons r q w.stopped (inl (same_session w.sessions id r i q same there at)))
      | inr still ↦ inr (i, ap (λ m. get m i) h.sessions ∙ still)
    ]
  ];
  known = λ i q e.
      b.known i q (remove_cases w.sessions id i q (ap (λ m. get m i) (sym h.sessions) ∙ e)).1;
}
  where
    same_session :
        (m : SessionMap) (id : Text) (r : Ref) (i : Text) (q : Ref)
        → id ≡ i
        → (get m id ≡ none) ⊎ (get m id ≡ some r)
        → get m i ≡ some q
        → r ≡ q
    same_session m id r i q same (inl gone) at = absurd (cc)
    same_session m id r i q same (inr here) at =
        some-injective _ _ (sym here ∙ ap (get m) same ∙ at)

-- A session with a new id.
pub put_old :
    (m : SessionMap) (id : Text) (r : Ref) (i : Text) → id ≢ i → get (put m id r) i ≡ get m i
unfolding get put
put_old m id r i ne = ground (arith, text_eq_iff id i, lookup-insert id i r m)
