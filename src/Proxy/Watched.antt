-- ===== src/Proxy/Watched.antt =====
-- Every session of selenoid.go that is in the map is watched by a timer, in every interleaving.
use selenoid.Base.{◌≡◌, refl, sym, ap, ◌∙◌, false, some, Text, get_elem?, inl, inr}
use mathlib.Core.Path.{subst}
use mathlib.Core.Option.{some-injective}
use selenoid.Session.Store.{Ref, Session, get}
use selenoid.Proxy.{Timer, Server, stop_timer, start_timer, renew}
use selenoid.Proxy.Steps.{Sound, Timed}
use selenoid.Proxy.Timing.{
  new_timer, closed_timer, stop_same, stop_other, renew_new, renew_other, renew-Sound, Ref-cases,
}

-- The timer of the session deletes this id when its time is up.
pub record Named (w : Server) (id : Text) (r : Ref) : Type 0 where
  pub session : Session
  pub timer : Timer
  pub timed : Timed w r session timer
  pub named : timer.sid ≡ id

abbrev pub Alive : Server → Text → Ref → Type 0
Alive w id r = (n : Named w id r) × (n.timer.closed ≡ false)

pub record Watched (w : Server) : Type 0 where
  pub sound : Sound w
  pub alive : (id : Text) (r : Ref) → get w.sessions id ≡ some r → Alive w id r

-- What a pointer to a session names, it still names later.
abbrev pub Kept : Server → Server → Type 0
Kept w v = (id : Text) (r : Ref) → Named w id r → Named v id r

pub same_session :
    (w : Server) (r : Ref) (s u : Session)
    → get_elem? w.heap r ≡ some s
    → get_elem? w.heap r ≡ some u
    → s ≡ u
same_session w r s u e f = some-injective _ _ (sym e ∙ f)

same_timer :
    (w : Server) (r : Ref) (s u : Session) (t t' : Timer) → Timed w r s t → Timed w r u t' → t ≡ t'
same_timer w r s u t t' h h' = some-injective _ _ (
    sym h.armed
    ∙ ap (λ v. get_elem? w.timers v.timeout_ch) (same_session w r s u h.stored h'.stored)
    ∙ h'.armed)

-- A session has one name only.
pub same_name : (w : Server) (r : Ref) (id id' : Text) → Named w id r → Named w id' r → id ≡ id'
same_name w r id id' n n' =
    sym n.named ∙ ap (λ t. t.sid) (same_timer w r _ _ _ _ n.timed n'.timed) ∙ n'.named

pub fresh_named :
    (w : Server) (id : Text) (r : Ref) (s : Session) → Timed w r s (new_timer id) → Named w id r
fresh_named w id r s h = record { session = s; timer = new_timer id; timed = h; named = refl }

pub renew-Kept :
    (w : Server) (id : Text) (r : Ref) (s : Session)
    → Sound w
    → get_elem? w.heap r ≡ some s
    → Named w id r
    → Kept w (renew id r s w)
renew-Kept w id r s sound here n id' q m = elim (Ref-cases r q) [
  | inl same ↦
      let name : id ≡ id' = same_name w q id id' (subst (Named w id) same n) m in
      subst (λ i. Named (renew id r s w) i q) name
        (subst (Named (renew id r s w) id) same (fresh_named _ id r _ (renew_new w id r s here)))
  | inr ne ↦ record {
    session = m.session;
    timer = m.timer;
    timed = renew_other w id r q s m.session m.timer sound here ne m.timed;
    named = m.named;
  }
]

renew_sessions :
    (w : Server) (id : Text) (r : Ref) (s : Session) → (renew id r s w).sessions ≡ w.sessions
unfolding stop_timer start_timer
renew_sessions w id r s = refl

pub Timed-Alive :
    (w : Server) (id : Text) (r : Ref) (s : Session) (t : Timer)
    → Timed w r s t
    → t.sid ≡ id
    → t.closed ≡ false
    → Alive w id r
Timed-Alive w id r s t h name unclosed =
    (record { session = s; timer = t; timed = h; named = name }, unclosed)

pub renew-Watched :
    (w : Server) (id : Text) (r : Ref) (s : Session)
    → Watched w
    → get_elem? w.heap r ≡ some s
    → Named w id r
    → Watched (renew id r s w)
renew-Watched w id r s h here n = record {
  sound = renew-Sound w id r s h.sound here;
  alive = λ id' q e.
      let (m, unclosed) = h.alive id' q (ap (λ x. get x id') (sym (renew_sessions w id r s)) ∙ e) in
      elim (Ref-cases r q) [
        | inl same ↦
            let name : id ≡ id' = same_name w q id id' (subst (Named w id) same n) m in
            subst (Alive (renew id r s w) id') same
              (Timed-Alive _ id' r _ (new_timer id) (renew_new w id r s here) name refl)
        | inr ne ↦
            Timed-Alive _ id' q m.session m.timer
              (renew_other w id r q s _ _ h.sound here ne m.timed) m.named unclosed
      ];
}

-- A server that differs in neither the sessions' pointers nor the timers.
pub same_Named :
    (w v : Server) (id : Text) (r : Ref)
    → v.heap ≡ w.heap
    → v.timers ≡ w.timers
    → Named w id r
    → Named v id r
same_Named w v id r heap timers n = record {
  session = n.session;
  timer = n.timer;
  timed = record {
    stored = ap (λ h. get_elem? h r) heap ∙ n.timed.stored;
    armed = ap (λ h. get_elem? h n.session.timeout_ch) timers ∙ n.timed.armed;
  };
  named = n.named;
}

pub same_Alive :
    (w v : Server) (id : Text) (r : Ref)
    → v.heap ≡ w.heap
    → v.timers ≡ w.timers
    → Alive w id r
    → Alive v id r
unfolding same_Named
same_Alive w v id r heap timers (n, unclosed) = (same_Named w v id r heap timers n, unclosed)

pub same_Sound : (w v : Server) → v.heap ≡ w.heap → v.timers ≡ w.timers → Sound w → Sound v
same_Sound w v heap timers sound = record {
  timed = λ q u e.
      let (t, h) = sound.timed q u (sym (ap (λ x. get_elem? x q) heap) ∙ e) in
      (t, record { stored = e; armed = ap (λ x. get_elem? x u.timeout_ch) timers ∙ h.armed });
  apart = λ r q s u e f.
      sound.apart r q s u (sym (ap (λ x. get_elem? x r) heap) ∙ e)
        (sym (ap (λ x. get_elem? x q) heap) ∙ f);
}

-- Fewer sessions in the map.
pub fewer_Watched :
    (w v : Server)
    → v.heap ≡ w.heap
    → v.timers ≡ w.timers
    → ((id : Text) (r : Ref) → get v.sessions id ≡ some r → get w.sessions id ≡ some r)
    → Watched w
    → Watched v
fewer_Watched w v heap timers fewer h = record {
  sound = same_Sound w v heap timers h.sound;
  alive = λ id r e. same_Alive w v id r heap timers (h.alive id r (fewer id r e));
}

pub stop-Kept :
    (w : Server) (r : Ref) (s : Session)
    → Sound w
    → get_elem? w.heap r ≡ some s
    → Kept w (stop_timer s w)
stop-Kept w r s sound here id q m = elim (Ref-cases r q) [
  | inl same ↦
      let is : s ≡ m.session =
        same_session w q s m.session (ap (get_elem? w.heap) (sym same) ∙ here) m.timed.stored in
      subst (λ u. Named (stop_timer u w) id q) (sym is)
        (record {
          session = m.session;
          timer = closed_timer m.timer;
          timed = stop_same w q m.session m.timer m.timed;
          named = m.named;
        })
  | inr ne ↦ record {
    session = m.session;
    timer = m.timer;
    timed = stop_other w r q s m.session m.timer sound here ne m.timed;
    named = m.named;
  }
]
