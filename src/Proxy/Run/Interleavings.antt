-- ===== src/Proxy/Run/Interleavings.antt =====
-- Every step of every request of selenoid.go keeps the sessions watched.
use selenoid.Base.{
  ◌≡◌, refl, sym, ap, ◌∙◌, ◌&&◌, Option, none, some, List, Text, get_elem?, Bool-cases, inl, inr,
}
use mathlib.Core.Path.{subst}
use mathlib.Core.Option.{some-injective}
use selenoid.Session.Store.{Ref, Session, ensure}
use selenoid.Proxy.{Settings, Request, Server, renew, direct, serial, is_vendor, is_empty}
use selenoid.Proxy.Run.{Pc, pointer, advance, proxying, forwarding, driving, finished, after_direct}
use selenoid.Proxy.Watched.{
  Named, Watched, Kept, renew-Kept, renew-Watched, same_Named, fewer_Watched,
}
use selenoid.Proxy.Ending.{end-Kept, end-Watched}

-- What the server is after a step, whatever the request was.
pub record Fine (w v : Server) : Type 0 where
  pub watched : Watched v
  pub kept : Kept w v

renew-Fine :
    (w : Server) (id : Text) (r : Ref) (s : Session)
    → Watched w
    → get_elem? w.heap r ≡ some s
    → Named w id r
    → Fine w (renew id r s w)
renew-Fine w id r s h here n = record {
  watched = renew-Watched w id r s h here n;
  kept = renew-Kept w id r s h.sound here n;
}

pub same-Fine : (w : Server) → Watched w → Fine w w
same-Fine w h = record { watched = h; kept = λ id r n. n }

pub serial-Fine : (w v : Server) → Fine w v → Fine w (serial v)
serial-Fine w v h = record {
  watched =
      fewer_Watched v (serial v) (unfold serial in refl) (unfold serial in refl)
        (λ id r e. unfold serial in e) h.watched;
  kept = λ id r n.
      same_Named v (serial v) id r (unfold serial in refl) (unfold serial in refl) (h.kept id r n);
}

direct-Fine :
    (c : Settings) (q : Request) (id : Text) (rest : List Text) (r : Ref) (s : Session) (w : Server)
    → Watched w
    → get_elem? w.heap r ≡ some s
    → Named w id r
    → Fine w (direct c q id rest r s w).0
unfolding direct
direct-Fine c q id rest r s w h here n = elim (Bool-cases (is_vendor rest)) [
  | inl vendor ↦ rw vendor (same-Fine w h)
  | inr other ↦ elim (Bool-cases (q.is_delete && is_empty rest)) [
    | inl ends ↦
        rw (other, ends)
          (record {
            watched = end-Watched c w id r s h here n;
            kept = end-Kept c w id r s h.sound here;
          })
    | inr on ↦ rw (other, on) (renew-Fine w id r s h here n)
  ]
]

abbrev pub Asked : Server → Pc → Type 0
Asked w pc = (id : Text) (r : Ref) → pointer pc ≡ some (id, r) → Named w id r

pub later_Asked : (w v : Server) (pc : Pc) → Kept w v → Asked w pc → Asked v pc
later_Asked w v pc kept h id r e = kept id r (h id r e)

pub finished-Asked : (w : Server) (o : Option Request) → Asked w (finished o)
unfolding pointer
finished-Asked w o id r e = absurd (cc)

pub advance-Fine :
    (c : Settings) (w : Server) (pc : Pc) (id : Text) (r : Ref) (s : Session) (v : Server)
    (pc' : Pc)
    → Watched w
    → Named w id r
    → pointer pc ≡ some (id, r)
    → get_elem? w.heap r ≡ some s
    → advance c w pc s ≡ some (v, pc')
    → Fine w v × (Asked w pc → Asked v pc')
unfolding advance pointer after_direct
advance-Fine c w (proxying q id' rest r') id r s v pc' h n p here e =
    let pair = some-injective _ _ p in
    let result = some-injective _ _ e in
    let n' = subst (λ x. Named w x.0 x.1) (sym pair) n in
    let here' : get_elem? w.heap r' ≡ some s = ap (λ x. get_elem? w.heap x.1) pair ∙ here in
    (
      subst (Fine w) (ap (λ x. x.0) result) (direct-Fine c q id' rest r' s w h here' n'),
      λ asked.
          subst (Asked v) (ap (λ x. x.1) result) (finished-Asked v (direct c q id' rest r' s w).1),
    )
advance-Fine c w (forwarding id' r') id r s v pc' h n p here e =
    let pair = some-injective _ _ p in
    let result = some-injective _ _ e in
    let n' = subst (λ x. Named w x.0 x.1) (sym pair) n in
    let here' : get_elem? w.heap r' ≡ some s = ap (λ x. get_elem? w.heap x.1) pair ∙ here in
    let fine = subst (Fine w) (ap (λ x. x.0) result) (renew-Fine w id' r' s h here' n') in
    (
      fine,
      λ asked.
          subst (Asked v) (ap (λ x. x.1) result)
            (later_Asked w v (forwarding id' r') fine.kept asked),
    )
advance-Fine c w (driving id' r') id r s v pc' h n p here e =
    let pair = some-injective _ _ p in
    let n' = subst (λ x. Named w x.0 x.1) (sym pair) n in
    let here' : get_elem? w.heap r' ≡ some s = ap (λ x. get_elem? w.heap x.1) pair ∙ here in
    elim (Bool-cases (ensure w.sessions id' r')) [
      | inl there ↦
          let result : (serial (renew id' r' s w), driving id' r') ≡ (v, pc') =
            some-injective _ _ (rw there at e) in
          let fine =
            subst (Fine w) (ap (λ x. x.0) result)
              (serial-Fine w _ (renew-Fine w id' r' s h here' n')) in
          (
            fine,
            λ asked.
                subst (Asked v) (ap (λ x. x.1) result)
                  (later_Asked w v (driving id' r') fine.kept asked),
          )
      | inr gone ↦
          let result : (w, finished none) ≡ (v, pc') = some-injective _ _ (rw gone at e) in
          (
            subst (Fine w) (ap (λ x. x.0) result) (same-Fine w h),
            λ asked. subst (Asked v) (ap (λ x. x.1) result) (finished-Asked v none),
          )
    ]
advance-Fine c w (finished q) id r s v pc' h n p here e = absurd (cc)
