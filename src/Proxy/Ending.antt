-- ===== src/Proxy/Ending.antt =====
-- Ending and storing sessions of selenoid.go keeps the others watched.
use selenoid.Base.{
  ◌≡◌, refl, ◌≢◌, sym, ap, ◌∙◌, some, Text, length, get_elem?, arith, inl, inr, ◌⊎◌, text_eq_iff,
  lookup-insert, lookup-delete,
}
use mathlib.Core.Path.{subst}
use selenoid.Session.Store.{Ref, Session, SessionMap, get, put, remove}
use selenoid.Proxy.{Settings, Server, stop_timer, start_timer, store_session, end_session, wipe}
use selenoid.Proxy.Steps.{Sound}
use selenoid.Proxy.Timing.{new_timer, stop_other, stop-Sound}
use selenoid.Proxy.Storing.{store-Sound, store_new, store_other}
use selenoid.Proxy.Watched.{
  Named, Watched, Alive, Kept, same_name, Timed-Alive, same_Named, same_Alive, same_Sound,
  stop-Kept,
}

pub remove_cases :
    (m : SessionMap) (id id' : Text) (q : Ref)
    → get (remove m id) id' ≡ some q
    → (id ≢ id') × (get m id' ≡ some q)
unfolding get remove
remove_cases m id id' q e = ground (arith, text_eq_iff id id', lookup-delete id id' m)

end_shape :
    (c : Settings) (id : Text) (r : Ref) (w : Server)
    → ((end_session c id r w).heap ≡ w.heap)
      × ((end_session c id r w).timers ≡ w.timers)
      × ((end_session c id r w).sessions ≡ remove w.sessions id)
unfolding end_session wipe
end_shape c id r w = ground arith

stop_sessions : (w : Server) (s : Session) → (stop_timer s w).sessions ≡ w.sessions
unfolding stop_timer
stop_sessions w s = refl

pub end-Kept :
    (c : Settings) (w : Server) (id : Text) (r : Ref) (s : Session)
    → Sound w
    → get_elem? w.heap r ≡ some s
    → Kept w (end_session c id r (stop_timer s w))
end-Kept c w id r s sound here =
    let (heap, timers, sessions) = end_shape c id r (stop_timer s w) in
    λ id' q m. same_Named (stop_timer s w) _ id' q heap timers (stop-Kept w r s sound here id' q m)

pub end-Watched :
    (c : Settings) (w : Server) (id : Text) (r : Ref) (s : Session)
    → Watched w
    → get_elem? w.heap r ≡ some s
    → Named w id r
    → Watched (end_session c id r (stop_timer s w))
end-Watched c w id r s h here n =
    let (heap, timers, sessions) = end_shape c id r (stop_timer s w) in
    record {
      sound = same_Sound (stop_timer s w) _ heap timers (stop-Sound w r s h.sound here);
      alive = λ id' q e.
          let (other, old) = remove_cases w.sessions id id' q (
            ap (λ x. get (remove x id) id') (sym (stop_sessions w s))
            ∙ ap (λ x. get x id') (sym sessions)
            ∙ e) in
          let (m, unclosed) = h.alive id' q old in
          let ne : r ≢ q = λ same. other (same_name w q id id' (subst (Named w id) same n) m) in
          let kept = stop_other w r q s m.session m.timer h.sound here ne m.timed in
          same_Alive (stop_timer s w) _ id' q heap timers
            (Timed-Alive _ id' q m.session m.timer kept m.named unclosed);
    }

pub put_cases :
    (m : SessionMap) (id id' : Text) (r q : Ref)
    → get (put m id r) id' ≡ some q
    → ((id ≡ id') × (r ≡ q)) ⊎ (get m id' ≡ some q)
unfolding get put
put_cases m id id' r q e = ground (arith, text_eq_iff id id', lookup-insert id id' r m)

pub store_sessions :
    (w : Server) (id : Text) (s : Session)
    → (store_session id s w).sessions ≡ put w.sessions id (length w.heap)
unfolding store_session start_timer
store_sessions w id s = refl

pub store-Kept : (w : Server) (id : Text) (s : Session) → Kept w (store_session id s w)
store-Kept w id s id' q m = record {
  session = m.session;
  timer = m.timer;
  timed = store_other w id s m.session q m.timer m.timed;
  named = m.named;
}

pub store-Watched :
    (w : Server) (id : Text) (s : Session) → Watched w → Watched (store_session id s w)
store-Watched w id s h = record {
  sound = store-Sound w id s h.sound;
  alive = λ id' q e.
      elim (put_cases w.sessions id id' (length w.heap) q
        (ap (λ x. get x id') (sym (store_sessions w id s)) ∙ e)) [
          | inl (name, same) ↦
              subst (Alive (store_session id s w) id') same
                (Timed-Alive _ id' _ _ (new_timer id) (store_new w id s) name refl)
          | inr old ↦
              let (m, unclosed) = h.alive id' q old in
              Timed-Alive _ id' q m.session m.timer (store_other w id s _ q _ m.timed) m.named
                unclosed
        ];
}
