-- ===== src/Proxy/Steps.antt =====
-- What the updates of the sessions and timers of selenoid.go do to the timer of each session.
use selenoid.Base.{
  ℕ, zero, suc, ◌≡◌, refl, ◌≢◌, sym, ap, true, some, List, [], ◌∷◌, ◌++◌, length, get_elem?, set,
  arith, inl, inr, ◌⊎◌, ◌<◌,
}
use selenoid.Session.Store.{Ref, Session}
use selenoid.Proxy.{Timer, Server, close}

module _ {ℓ} {A : Type ℓ} where
  pub get_elem?-set_same :
      (xs : List A) (i : ℕ) (x y : A) → get_elem? xs i ≡ some x → get_elem? (set xs i y) i ≡ some y
  get_elem?-set_same [] i x y e = absurd (cc)
  get_elem?-set_same (z ∷ xs) zero x y e = refl
  get_elem?-set_same (z ∷ xs) (suc i) x y e = get_elem?-set_same xs i x y e

  pub get_elem?-set_other :
      (xs : List A) (i j : ℕ) (y : A) → i ≢ j → get_elem? (set xs i y) j ≡ get_elem? xs j
  get_elem?-set_other [] i j y ne = refl
  get_elem?-set_other (z ∷ xs) zero zero y ne = absurd (ne refl)
  get_elem?-set_other (z ∷ xs) zero (suc j) y ne = refl
  get_elem?-set_other (z ∷ xs) (suc i) zero y ne = refl
  get_elem?-set_other (z ∷ xs) (suc i) (suc j) y ne =
      get_elem?-set_other xs i j y (λ e. ne (ap suc e))

  pub get_elem?-append_old :
      (xs ys : List A) (i : ℕ) (x : A) → get_elem? xs i ≡ some x → get_elem? (xs ++ ys) i ≡ some x
  get_elem?-append_old [] ys i x e = absurd (cc)
  get_elem?-append_old (z ∷ xs) ys zero x e = e
  get_elem?-append_old (z ∷ xs) ys (suc i) x e = get_elem?-append_old xs ys i x e

  pub get_elem?-append_new : (xs : List A) (y : A) → get_elem? (xs ++ (y ∷ [])) (length xs) ≡ some y
  get_elem?-append_new [] y = refl
  get_elem?-append_new (z ∷ xs) y = get_elem?-append_new xs y

  -- An element of a list with one more at its end.
  pub get_elem?-append_cases :
      (xs : List A) (y : A) (i : ℕ) (x : A)
      → get_elem? (xs ++ (y ∷ [])) i ≡ some x
      → (get_elem? xs i ≡ some x) ⊎ ((i ≡ length xs) × (x ≡ y))
  get_elem?-append_cases [] y zero x e = inr (refl, ground (arith, sym e))
  get_elem?-append_cases [] y (suc i) x e = absurd (cc)
  get_elem?-append_cases (z ∷ xs) y zero x e = inl e
  get_elem?-append_cases (z ∷ xs) y (suc i) x e = elim (get_elem?-append_cases xs y i x e) [
    | inl old ↦ inl old
    | inr (last, same) ↦ inr (ap suc last, same)
  ]

  pub get_elem?-lt : (xs : List A) (i : ℕ) (x : A) → get_elem? xs i ≡ some x → i < length xs
  get_elem?-lt [] i x e = absurd (cc)
  get_elem?-lt (z ∷ xs) zero x e = omega arith
  get_elem?-lt (z ∷ xs) (suc i) x e = omega (arith, get_elem?-lt xs i x e)

  pub set_cases :
      (xs : List A) (i j : ℕ) (x y z : A)
      → get_elem? xs i ≡ some x
      → get_elem? (set xs i y) j ≡ some z
      → ((i ≡ j) × (z ≡ y)) ⊎ ((i ≢ j) × (get_elem? xs j ≡ some z))
  set_cases [] i j x y z old e = absurd (cc)
  set_cases (w ∷ xs) zero zero x y z old e = inl (refl, ground (arith, sym e))
  set_cases (w ∷ xs) zero (suc j) x y z old e = inr (λ bad. omega arith, e)
  set_cases (w ∷ xs) (suc i) zero x y z old e = inr (λ bad. omega arith, e)
  set_cases (w ∷ xs) (suc i) (suc j) x y z old e = elim (set_cases xs i j x y z old e) [
    | inl (here, same) ↦ inl (ap suc here, same)
    | inr (away, kept) ↦ inr (λ bad. away (omega arith), kept)
  ]

-- A timer of a list with its channel closed.
pub get_elem?-close_same :
    (ts : List Timer) (n : ℕ) (t : Timer)
    → get_elem? ts n ≡ some t
    → get_elem? (close n ts) n ≡ some (record t { closed = true })
unfolding close
get_elem?-close_same [] n t e = absurd (cc)
get_elem?-close_same (u ∷ ts) zero t e = ground arith
get_elem?-close_same (u ∷ ts) (suc n) t e = get_elem?-close_same ts n t e

pub get_elem?-close_other :
    (ts : List Timer) (n m : ℕ) → n ≢ m → get_elem? (close n ts) m ≡ get_elem? ts m
unfolding close
get_elem?-close_other [] zero m ne = refl
get_elem?-close_other [] (suc n) m ne = refl
get_elem?-close_other (u ∷ ts) zero zero ne = absurd (ne refl)
get_elem?-close_other (u ∷ ts) zero (suc m) ne = refl
get_elem?-close_other (u ∷ ts) (suc n) zero ne = refl
get_elem?-close_other (u ∷ ts) (suc n) (suc m) ne =
    get_elem?-close_other ts n m (λ e. ne (ap suc e))

pub length-close : (n : ℕ) (ts : List Timer) → length (close n ts) ≡ length ts
unfolding close
length-close zero [] = refl
length-close zero (t ∷ ts) = refl
length-close (suc n) [] = refl
length-close (suc n) (t ∷ ts) = ap suc (length-close n ts)

-- The session behind a pointer, and the timer of its channel.
pub record Timed (w : Server) (r : Ref) (s : Session) (t : Timer) : Type 0 where
  pub stored : get_elem? w.heap r ≡ some s
  pub armed : get_elem? w.timers s.timeout_ch ≡ some t

-- Every session has a timer, and no two share one.
pub record Sound (w : Server) : Type 0 where
  pub timed : (r : Ref) (s : Session) → get_elem? w.heap r ≡ some s → (t : Timer) × Timed w r s t
  pub apart :
      (r q : Ref) (s u : Session)
      → get_elem? w.heap r ≡ some s
      → get_elem? w.heap q ≡ some u
      → s.timeout_ch ≡ u.timeout_ch
      → r ≡ q
