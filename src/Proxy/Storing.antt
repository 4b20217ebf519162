-- ===== src/Proxy/Storing.antt =====
-- What storing a new session of selenoid.go does to the timers.
use selenoid.Base.{◌≡◌, ◌≢◌, sym, some, [], ◌∷◌, ◌++◌, Text, length, get_elem?, arith, inl, inr}
use selenoid.Session.Store.{Ref, Session}
use selenoid.Proxy.{Timer, Server, start_timer, store_session}
use selenoid.Proxy.Steps.{
  Sound, Timed, get_elem?-append_old, get_elem?-append_new, get_elem?-append_cases, get_elem?-lt,
}
use selenoid.Proxy.Timing.{new_timer, on_channel, SoundBut, start-Sound, start_new, start_other}

-- One more session on the heap, with no timer yet.
allocate : Session → Server → Server
allocate s w = record w { heap = w.heap ++ (s ∷ []) }

allocate_old :
    (w : Server) (s u : Session) (q : Ref)
    → length w.heap ≢ q
    → get_elem? (allocate s w).heap q ≡ some u
    → get_elem? w.heap q ≡ some u
unfolding allocate
allocate_old w s u q ne e = elim (get_elem?-append_cases w.heap s q u e) [
  | inl old ↦ old
  | inr (last, same) ↦ absurd (ne (sym last))
]

allocate-Timed :
    (w : Server) (s u : Session) (q : Ref) (t : Timer) → Timed w q u t → Timed (allocate s w) q u t
unfolding allocate
allocate-Timed w s u q t h = record {
  stored = get_elem?-append_old w.heap _ q u h.stored;
  armed = h.armed;
}

allocate-SoundBut : (w : Server) (s : Session) → Sound w → SoundBut (length w.heap) (allocate s w)
allocate-SoundBut w s sound = record {
  timed = λ q u ne e.
      let (t, h) = sound.timed q u (allocate_old w s u q ne e) in (t, allocate-Timed w s u q t h);
  apart = λ p q v u ne ne' e f.
      sound.apart p q v u (allocate_old w s v p ne e) (allocate_old w s u q ne' f);
}

allocate_here : (w : Server) (s : Session) → get_elem? (allocate s w).heap (length w.heap) ≡ some s
unfolding allocate
allocate_here w s = get_elem?-append_new w.heap s

-- What the fields that `sessions.Put` does not touch say.
stored-Timed :
    (w : Server) (id : Text) (s u : Session) (q : Ref) (t : Timer)
    → Timed (start_timer id (length w.heap) s (allocate s w)) q u t
    → Timed (store_session id s w) q u t
unfolding store_session allocate
stored-Timed w id s u q t h = record { stored = h.stored; armed = h.armed }

pub store-Sound : (w : Server) (id : Text) (s : Session) → Sound w → Sound (store_session id s w)
store-Sound w id s sound =
    let v =
      start-Sound (allocate s w) id (length w.heap) s (allocate-SoundBut w s sound)
        (allocate_here w s) in
    record {
      timed = λ q u e.
          let (t, h) = v.timed q u (unfold store_session allocate in e) in
          (t, stored-Timed w id s u q t h);
      apart = unfold store_session allocate in v.apart;
    }

pub store_new :
    (w : Server) (id : Text) (s : Session)
    → Timed (store_session id s w) (length w.heap) (on_channel s (length w.timers)) (new_timer id)
store_new w id s =
    stored-Timed w id s _ _ _
      (unfold allocate in start_new (allocate s w) id (length w.heap) s (allocate_here w s))

pub store_other :
    (w : Server) (id : Text) (s u : Session) (q : Ref) (t : Timer)
    → Timed w q u t
    → Timed (store_session id s w) q u t
store_other w id s u q t h =
    let below = get_elem?-lt w.heap q u h.stored in
    stored-Timed w id s u q t (
      start_other (allocate s w) id (length w.heap) q s u t (λ e. omega arith)
        (allocate-Timed w s u q t h))
