-- ===== src/Proxy/Run/Shutdown/Changes.antt =====
-- What a step of a request changes in the map of selenoid.go and in the sessions that were stopped.
use selenoid.Base.{
  ℕ, zero, suc, ◌≡◌, refl, sym, ap, ◌&&◌, none, some, List, [], ◌∷◌, Text, length, set, Bool-cases,
  inl, inr, ◌⊎◌, arith,
}
use mathlib.Core.Path.{subst}
use mathlib.Core.Option.{some-injective}
use selenoid.Session.Store.{Ref, Session, remove, ensure}
use selenoid.Proxy.{
  Settings, Request, Server, stop_timer, start_timer, renew, end_session, direct, serial, wipe,
  is_vendor, is_empty,
}
use selenoid.Proxy.Run.{Pc, pointer, advance, proxying, forwarding, driving, finished, after_direct}

-- Nothing of these.
pub record Same (w v : Server) : Type 0 where
  pub sessions : v.sessions ≡ w.sessions
  pub count : length v.heap ≡ length w.heap
  pub stopped : v.stopped ≡ w.stopped

-- This session is out of the map and stopped.
pub record Stopped (id : Text) (r : Ref) (w v : Server) : Type 0 where
  pub sessions : v.sessions ≡ remove w.sessions id
  pub count : length v.heap ≡ length w.heap
  pub stopped : v.stopped ≡ r ∷ w.stopped

abbrev pub Change : Text → Ref → Server → Server → Type 0
Change id r w v = Same w v ⊎ Stopped id r w v

pub length-set {ℓ} : {A : Type ℓ} (xs : List A) (i : ℕ) (x : A) → length (set xs i x) ≡ length xs
length-set [] i x = refl
length-set (y ∷ xs) zero x = refl
length-set (y ∷ xs) (suc i) x = omega (arith, length-set xs i x)

renew-Same : (id : Text) (r : Ref) (s : Session) (w : Server) → Same w (renew id r s w)
unfolding stop_timer start_timer
renew-Same id r s w = record { sessions = refl; count = length-set w.heap r _; stopped = refl }

pub serial-Same : (w v : Server) → Same w v → Same w (serial v)
unfolding serial
serial-Same w v h = record { sessions = h.sessions; count = h.count; stopped = h.stopped }

end-Stopped :
    (c : Settings) (id : Text) (r : Ref) (s : Session) (w : Server)
    → Stopped id r w (end_session c id r (stop_timer s w))
unfolding end_session stop_timer wipe
end-Stopped c id r s w = elim (Bool-cases c.enable_file_upload) [
  | inl wipes ↦ rw wipes (record { sessions = refl; count = refl; stopped = refl })
  | inr keeps ↦ rw keeps (record { sessions = refl; count = refl; stopped = refl })
]

direct-Change :
    (c : Settings) (q : Request) (id : Text) (rest : List Text) (r : Ref) (s : Session) (w : Server)
    → Change id r w (direct c q id rest r s w).0
unfolding direct
direct-Change c q id rest r s w = elim (Bool-cases (is_vendor rest)) [
  | inl vendor ↦ rw vendor (inl (record { sessions = refl; count = refl; stopped = refl }))
  | inr other ↦ elim (Bool-cases (q.is_delete && is_empty rest)) [
    | inl ends ↦ rw (other, ends) (inr (end-Stopped c id r s w))
    | inr on ↦ rw (other, on) (inl (renew-Same id r s w))
  ]
]

abbrev pub SameOrNo : Pc → Pc → Type 0
SameOrNo pc pc' = (pointer pc' ≡ none) ⊎ (pointer pc' ≡ pointer pc)

-- One step of a request that has this session.
pub advance-Change :
    (c : Settings) (w : Server) (pc : Pc) (id : Text) (r : Ref) (s : Session) (v : Server)
    (pc' : Pc)
    → pointer pc ≡ some (id, r)
    → advance c w pc s ≡ some (v, pc')
    → Change id r w v × SameOrNo pc pc'
unfolding advance pointer after_direct
advance-Change c w (proxying q i rest n) id r s v pc' p e =
    let pair = some-injective _ _ p in
    let result = some-injective _ _ e in
    (
      subst (λ x. Change x.0 x.1 w v) pair
          (subst (Change i n w) (ap (λ x. x.0) result) (direct-Change c q i rest n s w)),
      inl (ap pointer (sym (ap (λ x. x.1) result))),
    )
advance-Change c w (forwarding i n) id r s v pc' p e =
    let result = some-injective _ _ e in
    (
      inl (subst (Same w) (ap (λ x. x.0) result) (renew-Same i n s w)),
      inr (ap pointer (sym (ap (λ x. x.1) result))),
    )
advance-Change c w (driving i n) id r s v pc' p e = elim (Bool-cases (ensure w.sessions i n)) [
  | inl there ↦
      let result : (serial (renew i n s w), driving i n) ≡ (v, pc') =
        some-injective _ _ (rw there at e) in
      (
        inl (subst (Same w) (ap (λ x. x.0) result) (serial-Same w _ (renew-Same i n s w))),
        inr (ap pointer (sym (ap (λ x. x.1) result))),
      )
  | inr gone ↦
      let result : (w, finished none) ≡ (v, pc') = some-injective _ _ (rw gone at e) in
      (
        inl (
            subst (Same w) (ap (λ x. x.0) result)
              (record { sessions = refl; count = refl; stopped = refl })),
        inl (ap pointer (sym (ap (λ x. x.1) result))),
      )
]
advance-Change c w (finished q) id r s v pc' p e = absurd (cc)
