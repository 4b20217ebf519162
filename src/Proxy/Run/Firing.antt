-- ===== src/Proxy/Run/Firing.antt =====
-- A timer of selenoid.go that fires keeps the sessions watched.
use selenoid.Base.{ℕ, ◌≡◌, refl, sym, ap, ◌∙◌, true, some, get_elem?, set, inl, inr}
use mathlib.Core.Option.{some-injective}
use selenoid.Session.Store.{Ref, Session}
use selenoid.Proxy.{Timer, Server}
use selenoid.Proxy.Steps.{Timed, get_elem?-set_same, get_elem?-set_other}
use selenoid.Proxy.Timing.{Ref-cases}
use selenoid.Proxy.Watched.{Watched}
use selenoid.Proxy.Run.Interleavings.{Fine}

-- A timer that fires.
abbrev pub fire_server : Server → ℕ → Timer → Server
fire_server w n t = record w { timers = set w.timers n (record t { fired = true }) }

fire-Timed :
    (w : Server) (n : ℕ) (t u : Timer) (r : Ref) (s : Session)
    → get_elem? w.timers n ≡ some t
    → Timed w r s u
    → (u' : Timer) × Timed (fire_server w n t) r s u' × (u'.sid ≡ u.sid) × (u'.closed ≡ u.closed)
fire-Timed w n t u r s here h = elim (Ref-cases n s.timeout_ch) [
  | inl same ↦
      let is : t ≡ u = some-injective _ _ (sym here ∙ ap (get_elem? w.timers) same ∙ h.armed) in
      (
        record t { fired = true },
        record {
          stored = h.stored;
          armed =
              ap (get_elem? (set w.timers n (record t { fired = true }))) (sym same)
              ∙ get_elem?-set_same w.timers n t _ here;
        },
        ap (λ x. x.sid) is,
        ap (λ x. x.closed) is,
      )
  | inr ne ↦ (
    u,
    record {
      stored = h.stored;
      armed = get_elem?-set_other w.timers n s.timeout_ch _ ne ∙ h.armed;
    },
    refl,
    refl,
  )
]

pub fire-Fine :
    (w : Server) (n : ℕ) (t : Timer)
    → Watched w
    → get_elem? w.timers n ≡ some t
    → Fine w (fire_server w n t)
fire-Fine w n t h here = record {
  watched = record {
    sound = record {
      timed = λ q u e.
          let (v, g) = h.sound.timed q u (e) in
          let (v', g', name, unclosed) = fire-Timed w n t v q u here g in (v', g');
      apart = h.sound.apart;
    };
    alive = λ id r e.
        let (m, unclosed) = h.alive id r (e) in
        let (v, g, name, still) = fire-Timed w n t m.timer r m.session here m.timed in
        (
          record { session = m.session; timer = v; timed = g; named = name ∙ m.named },
          still ∙ unclosed,
        );
  };
  kept = λ id r m.
      let (v, g, name, still) = fire-Timed w n t m.timer r m.session here m.timed in
      record { session = m.session; timer = v; timed = g; named = name ∙ m.named };
}
