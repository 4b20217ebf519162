-- ===== src/Proxy/Targets.antt =====
-- Where the Director of selenoid.go sends a request.
use selenoid.Base.{
  ◌≡◌, refl, sym, ap, ◌∙◌, true, false, ◌&&◌, none, some, List, [], ◌∷◌, Text, arith, Bool-cases,
  inl, inr, ◌⊎◌, ◌↔◌, codes, text_eq_iff,
}
use selenoid.Session.Store.{Ref, Session}
use selenoid.Proxy.{
  Settings, Request, Server, direct, is_vendor, is_upload, is_empty, vendor_target, to_app,
  to_upload, to_browser, or_localhost,
}

-- The three kinds of branches of the Director.
direct_cases :
    (c : Settings) (q : Request) (id : Text) (rest : List Text) (r : Ref) (s : Session) (w : Server)
    → ((is_vendor rest ≡ true) × (direct c q id rest r s w ≡ (w, vendor_target c id rest q)))
      ⊎ ((is_vendor rest ≡ false)
          × (((direct c q id rest r s w).1 ≡ some (to_browser s q))
              ⊎ ((is_upload c rest ≡ true)
                  × ((direct c q id rest r s w).1 ≡ some (to_upload c id q)))))
unfolding direct
direct_cases c q id rest r s w = elim (Bool-cases (is_vendor rest)) [
  | inl vendor ↦ inl (vendor, rw vendor)
  | inr other ↦ inr (
    other,
    elim (Bool-cases (q.is_delete && is_empty rest)) [
      | inl ends ↦ inl (rw (other, ends))
      | inr on ↦ elim (Bool-cases (is_upload c rest)) [
        | inl upload ↦ inr (upload, rw (other, on, upload))
        | inr browser ↦ inl (rw (other, on, browser))
      ]
    ],
  )
]

vendor_panics :
    (c : Settings) (id : Text) (rest : List Text) (q : Request)
    → is_vendor rest ≡ true
    → (vendor_target c id rest q ≡ none) ↔ (rest ≡ codes "aerokube" ∷ [])
unfolding vendor_target is_vendor
vendor_panics c id [] q v = absurd (cc)
vendor_panics c id (f ∷ []) q v =
    (λ e. ap (λ x. x ∷ []) ((text_eq_iff f (codes "aerokube")).0 v), λ e. refl)
vendor_panics c id (f ∷ g ∷ fs) q v = (λ e. absurd (cc), λ e. absurd (cc))

vendor_alone : (rest : List Text) → rest ≡ codes "aerokube" ∷ [] → is_vendor rest ≡ true
unfolding is_vendor
vendor_alone [] e = absurd (cc)
vendor_alone (f ∷ fs) e = (text_eq_iff f (codes "aerokube")).1 (cc)

-- The Director of a known session panics for one path only, `/session/<id>/aerokube`.
pub direct_panics_iff :
    (c : Settings) (q : Request) (id : Text) (rest : List Text) (r : Ref) (s : Session) (w : Server)
    → ((direct c q id rest r s w).1 ≡ none) ↔ (rest ≡ codes "aerokube" ∷ [])
direct_panics_iff c q id rest r s w = elim (direct_cases c q id rest r s w) [
  | inl (vendor, shape) ↦ rw shape (vendor_panics c id rest q vendor)
  | inr (other, inl browser) ↦
      (λ e. absurd (cc), λ e. let alone = vendor_alone rest e in absurd (cc))
  | inr (other, inr (upload, file)) ↦
      (λ e. absurd (cc), λ e. let alone = vendor_alone rest e in absurd (cc))
]

vendor_host :
    (c : Settings) (id : Text) (rest : List Text) (q q' : Request)
    → vendor_target c id rest q ≡ some q'
    → (q'.host ≡ c.localaddr) × (q'.request_host ≡ q.request_host)
unfolding vendor_target to_app
vendor_host c id [] q q' e = absurd (cc)
vendor_host c id (f ∷ []) q q' e = absurd (cc)
vendor_host c id (f ∷ g ∷ fs) q q' e = ground arith

-- What a client asks of a session goes to the host of that session, under the host name that the session
-- has, or stays on this server. It never goes to another host.
pub direct_host :
    (c : Settings) (q : Request) (id : Text) (rest : List Text) (r : Ref) (s : Session) (w : Server)
    (q' : Request)
    → q.host ≡ c.localaddr
    → (direct c q id rest r s w).1 ≡ some q'
    → ((q'.host ≡ s.url.host) × (q'.request_host ≡ or_localhost s.origin))
      ⊎ ((q'.host ≡ c.localaddr) × (q'.request_host ≡ q.request_host))
unfolding to_browser to_upload
direct_host c q id rest r s w q' local e = elim (direct_cases c q id rest r s w) [
  | inl (vendor, shape) ↦ inr (vendor_host c id rest q q' (sym (ap (λ x. x.1) shape) ∙ e))
  | inr (other, inl browser) ↦ inl (ground arith)
  | inr (other, inr (upload, file)) ↦ inr (ground arith)
]
