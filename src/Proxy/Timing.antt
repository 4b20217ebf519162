-- ===== src/Proxy/Timing.antt =====
-- What ending, renewing and storing a session of selenoid.go does to the timers.
use selenoid.Base.{
  ℕ, zero, suc, ◌≡◌, refl, ◌≢◌, sym, ap, ◌∙◌, true, false, some, Text, length, get_elem?, arith,
  inl, inr, ◌⊎◌,
}
use mathlib.Core.Path.{subst}
use mathlib.Core.Option.{some-injective}
use selenoid.Session.Store.{Ref, Session}
use selenoid.Proxy.{Timer, Server, close, on_timeout, stop_timer, start_timer, renew}
use selenoid.Proxy.Steps.{
  Sound, Timed, get_elem?-set_same, get_elem?-set_other, get_elem?-append_old, get_elem?-append_new,
  get_elem?-lt, set_cases, get_elem?-close_same, get_elem?-close_other, length-close,
}

abbrev pub new_timer : Text → Timer
new_timer id = record { sid = id; closed = false; fired = false }

abbrev pub closed_timer : Timer → Timer
closed_timer t = record t { closed = true }

abbrev pub on_channel : Session → ℕ → Session
on_channel s n = record s { timeout_ch = n }

-- Another session has another channel.
other_channel :
    (w : Server) (r q : Ref) (s u : Session)
    → Sound w
    → get_elem? w.heap r ≡ some s
    → get_elem? w.heap q ≡ some u
    → r ≢ q
    → s.timeout_ch ≢ u.timeout_ch
other_channel w r q s u sound here there ne e = ne (sound.apart r q s u here there e)

pub stop_same :
    (w : Server) (r : Ref) (s : Session) (t : Timer)
    → Timed w r s t
    → Timed (stop_timer s w) r s (closed_timer t)
unfolding stop_timer
stop_same w r s t h = record {
  stored = h.stored;
  armed = get_elem?-close_same w.timers s.timeout_ch t h.armed;
}

pub stop_other :
    (w : Server) (r q : Ref) (s u : Session) (t : Timer)
    → Sound w
    → get_elem? w.heap r ≡ some s
    → r ≢ q
    → Timed w q u t
    → Timed (stop_timer s w) q u t
unfolding stop_timer
stop_other w r q s u t sound here ne h = record {
  stored = h.stored;
  armed =
      get_elem?-close_other w.timers s.timeout_ch u.timeout_ch
        (other_channel w r q s u sound here h.stored ne)
      ∙ h.armed;
}

-- The number of a session tells it from another one or not.
pub Ref-cases : (r q : ℕ) → (r ≡ q) ⊎ (r ≢ q)
Ref-cases zero zero = inl refl
Ref-cases zero (suc q) = inr (λ e. omega arith)
Ref-cases (suc r) zero = inr (λ e. omega arith)
Ref-cases (suc r) (suc q) = elim (Ref-cases r q) [
  | inl e ↦ inl (ap suc e)
  | inr ne ↦ inr (λ e. ne (omega arith))
]

pub stop-Sound :
    (w : Server) (r : Ref) (s : Session)
    → Sound w
    → get_elem? w.heap r ≡ some s
    → Sound (stop_timer s w)
stop-Sound w r s sound here = record {
  timed = λ q u there.
      let there' : get_elem? w.heap q ≡ some u = unfold stop_timer in there in
      let (t, h) = sound.timed q u there' in
      elim (Ref-cases r q) [
        | inl same ↦
            let is : s ≡ u = some-injective _ _ (sym here ∙ ap (get_elem? w.heap) same ∙ there') in
            (
              closed_timer t,
              subst (λ v. Timed (stop_timer v w) q u (closed_timer t)) (sym is)
                  (stop_same w q u t h),
            )
        | inr ne ↦ (t, stop_other w r q s u t sound here ne h)
      ];
  apart = unfold stop_timer in sound.apart;
}

pub renew_new :
    (w : Server) (id : Text) (r : Ref) (s : Session)
    → get_elem? w.heap r ≡ some s
    → Timed (renew id r s w) r (on_channel s (length w.timers)) (new_timer id)
unfolding stop_timer start_timer on_timeout
renew_new w id r s here =
    let same = length-close s.timeout_ch w.timers in
    record {
      stored = get_elem?-set_same w.heap r s _ here ∙ ap (λ n. some (on_channel s n)) same;
      armed =
          ap (get_elem? _) (sym same)
          ∙ get_elem?-append_new (close s.timeout_ch w.timers) (new_timer id);
    }

pub start_other :
    (w : Server) (id : Text) (r q : Ref) (s u : Session) (t : Timer)
    → r ≢ q
    → Timed w q u t
    → Timed (start_timer id r s w) q u t
unfolding start_timer on_timeout
start_other w id r q s u t ne h = record {
  stored = get_elem?-set_other w.heap r q _ ne ∙ h.stored;
  armed = get_elem?-append_old w.timers _ u.timeout_ch t h.armed;
}

pub renew_other :
    (w : Server) (id : Text) (r q : Ref) (s u : Session) (t : Timer)
    → Sound w
    → get_elem? w.heap r ≡ some s
    → r ≢ q
    → Timed w q u t
    → Timed (renew id r s w) q u t
renew_other w id r q s u t sound here ne h =
    start_other (stop_timer s w) id r q s u t ne (stop_other w r q s u t sound here ne h)

-- The session that has a new timer, and the others.
start_cases :
    (w : Server) (id : Text) (r q : Ref) (s u : Session)
    → get_elem? w.heap r ≡ some s
    → get_elem? (start_timer id r s w).heap q ≡ some u
    → ((r ≡ q) × (u ≡ on_channel s (length w.timers))) ⊎ ((r ≢ q) × (get_elem? w.heap q ≡ some u))
unfolding start_timer
start_cases w id r q s u here there = set_cases w.heap r q s _ u here there

pub start_new :
    (w : Server) (id : Text) (r : Ref) (s : Session)
    → get_elem? w.heap r ≡ some s
    → Timed (start_timer id r s w) r (on_channel s (length w.timers)) (new_timer id)
unfolding start_timer on_timeout
start_new w id r s here = record {
  stored = get_elem?-set_same w.heap r s _ here;
  armed = get_elem?-append_new w.timers (new_timer id);
}

-- The same of all sessions but one.
pub record SoundBut (r : Ref) (w : Server) : Type 0 where
  pub timed :
      (q : Ref) (u : Session) → r ≢ q → get_elem? w.heap q ≡ some u → (t : Timer) × Timed w q u t
  pub apart :
      (p q : Ref) (v u : Session)
      → r ≢ p
      → r ≢ q
      → get_elem? w.heap p ≡ some v
      → get_elem? w.heap q ≡ some u
      → v.timeout_ch ≡ u.timeout_ch
      → p ≡ q

old_channel :
    (w : Server) (r q : Ref) (u : Session)
    → SoundBut r w
    → r ≢ q
    → get_elem? w.heap q ≡ some u
    → length w.timers ≢ u.timeout_ch
old_channel w r q u sound ne there e =
    let (t, h) = sound.timed q u ne there in
    let below = get_elem?-lt w.timers u.timeout_ch t h.armed in omega arith

pub start-Sound :
    (w : Server) (id : Text) (r : Ref) (s : Session)
    → SoundBut r w
    → get_elem? w.heap r ≡ some s
    → Sound (start_timer id r s w)
start-Sound w id r s sound here = record {
  timed = λ q u there. elim (start_cases w id r q s u here there) [
    | inl (same, is) ↦ (
      new_timer id,
      subst (λ v. Timed (start_timer id r s w) q v (new_timer id)) (sym is)
          (subst
            (λ p. Timed (start_timer id r s w) p (on_channel s (length w.timers)) (new_timer id))
            same (start_new w id r s here)),
    )
    | inr (ne, old) ↦ let (t, h) = sound.timed q u ne old in (t, start_other w id r q s u t ne h)
  ];
  apart = λ p q v u first second e. elim (start_cases w id r p s v here first) [
    | inl (same, is) ↦ elim (start_cases w id r q s u here second) [
      | inl (same', is') ↦ sym same ∙ same'
      | inr (ne, old) ↦
          absurd (old_channel w r q u sound ne old (sym (ap (λ x. x.timeout_ch) is) ∙ e))
    ]
    | inr (ne, old) ↦ elim (start_cases w id r q s u here second) [
      | inl (same', is') ↦
          absurd (old_channel w r p v sound ne old (sym (e ∙ ap (λ x. x.timeout_ch) is')))
      | inr (ne', old') ↦ sound.apart p q v u ne ne' old old' e
    ]
  ];
}

sound_but : (r : Ref) (w : Server) → Sound w → SoundBut r w
sound_but r w sound = record {
  timed = λ q u ne. sound.timed q u;
  apart = λ p q v u ne ne'. sound.apart p q v u;
}

pub renew-Sound :
    (w : Server) (id : Text) (r : Ref) (s : Session)
    → Sound w
    → get_elem? w.heap r ≡ some s
    → Sound (renew id r s w)
renew-Sound w id r s sound here =
    start-Sound (stop_timer s w) id r s (sound_but r _ (stop-Sound w r s sound here))
      (unfold stop_timer in here)
