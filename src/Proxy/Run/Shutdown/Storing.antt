-- ===== src/Proxy/Run/Shutdown/Storing.antt =====
-- A session of selenoid.go with a new id, in the books.
use selenoid.Base.{
  ℕ, ◌+◌, ◌<◌, ◌≡◌, refl, ◌≢◌, sym, ap, ◌∙◌, true, false, none, some, List, [], ◌∷◌, ◌++◌, Text,
  text_eq_refl, length, length-append, any, inl, inr, ◌⊎◌, arith, ◌==◌, lookup-insert_self,
}
use mathlib.Core.Path.{subst}
use selenoid.Session.Store.{Ref, Session, SessionMap, get, put}
use selenoid.Proxy.{Server, store_session, start_timer}
use selenoid.Proxy.Ending.{put_cases, store_sessions}
use selenoid.Proxy.Run.{Pc}
use selenoid.Proxy.Run.Shutdown.Changes.{length-set}
use selenoid.Proxy.Run.Shutdown.Accounts.{is_stored, Books, Held, put_old}

store_count :
    (w : Server) (id : Text) (s : Session) → length (store_session id s w).heap ≡ length w.heap + 1
unfolding store_session start_timer
store_count w id s =
    length-set (w.heap ++ (s ∷ [])) (length w.heap) _ ∙ length-append w.heap (s ∷ [])

store_stopped : (w : Server) (id : Text) (s : Session) → (store_session id s w).stopped ≡ w.stopped
unfolding store_session start_timer
store_stopped w id s = refl

apart : (ids : List Text) (id i : Text) → is_stored id ids ≡ false → is_stored i ids ≡ true → id ≢ i
apart ids id i new old same = ground arith

still_stored :
    (ids : List Text) (id i : Text) → is_stored i ids ≡ true → is_stored i (id ∷ ids) ≡ true
still_stored ids id i h = ground arith

-- What the map holds under another id, after a session was stored.
other_session :
    (ids : List Text) (w : Server) (id i : Text) (s : Session)
    → is_stored id ids ≡ false
    → is_stored i ids ≡ true
    → get (store_session id s w).sessions i ≡ get w.sessions i
other_session ids w id i s new old =
    ap (λ m. get m i) (store_sessions w id s)
    ∙ put_old w.sessions id (length w.heap) i (apart ids id i new old)

pub store-Held :
    (ids : List Text) (w : Server) (id : Text) (s : Session) (pc : Pc)
    → is_stored id ids ≡ false
    → Held ids w pc
    → Held (id ∷ ids) (store_session id s w) pc
store-Held ids w id s pc new held i q e =
    let (old, there) = held i q e in
    (
      still_stored ids id i old,
      subst (λ o. (o ≡ none) ⊎ (o ≡ some q)) (sym (other_session ids w id i s new old)) there,
    )

put_here : (m : SessionMap) (id : Text) (r : Ref) → get (put m id r) id ≡ some r
unfolding get put
put_here m id r = lookup-insert_self id r m

here_session :
    (w : Server) (id : Text) (s : Session)
    → get (store_session id s w).sessions id ≡ some (length w.heap)
here_session w id s =
    ap (λ m. get m id) (store_sessions w id s) ∙ put_here w.sessions id (length w.heap)

pub store-Books :
    (ids : List Text) (w : Server) (id : Text) (s : Session)
    → is_stored id ids ≡ false
    → Books ids w
    → Books (id ∷ ids) (store_session id s w)
store-Books ids w id s new b = record {
  kept = λ r lt.
      elim (last_or_below (length w.heap) r (subst (λ n. r < n) (store_count w id s) lt)) [
        | inl same ↦ inr (id, here_session w id s ∙ ap some (sym same))
        | inr below ↦ elim (b.kept r below) [
          | inl over ↦ inl (ap (any (λ q. q == r)) (store_stopped w id s) ∙ over)
          | inr (i, at) ↦ inr (i, other_session ids w id i s new (b.known i r at) ∙ at)
        ]
      ];
  known = λ i q e.
      elim (put_cases w.sessions id i (length w.heap) q
        (ap (λ m. get m i) (sym (store_sessions w id s)) ∙ e)) [
          | inl (name, same) ↦ subst (λ j. is_stored j (id ∷ ids) ≡ true) name (here ids id)
          | inr old ↦ still_stored ids id i (b.known i q old)
        ];
}
  where
    last_or_below : (n r : ℕ) → r < n + 1 → (r ≡ n) ⊎ (r < n)
    last_or_below n r h = ground arith

    here : (ids : List Text) (id : Text) → is_stored id (id ∷ ids) ≡ true
    here ids id = rw text_eq_refl refl
