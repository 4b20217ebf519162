-- ===== src/Create/Attempts/Bounded.antt =====
-- The loop of the attempts of selenoid.go ends.
use selenoid.Base.{
  ℕ, zero, suc, ◌+◌, ◌-◌, ◌≤◌, ◌<◌, ◌≡◌, refl, sym, true, ◌&&◌, Option, none, some, List, [], ◌∷◌,
  Text, codes, ltb, ◌==◌, arith, length, Bool-cases, inl, inr, bit,
}
use selenoid.Paths.{path_join}
use selenoid.Create.Attempts.{
  Attempt, timed_out, disconnected, failed, answered, Sent, Tried, GaveUp, got, gave_up, Upstream,
  attempts, decide, log_sent, is_blank,
}

-- The loop ends with at most so many attempts.
abbrev Ends : ℕ → Option (List Sent × Tried) → Type 0
Ends n o = (ss : List Sent) × (t : Tried) × (o ≡ some (ss, t)) × (length ss ≤ n)

log-Ends :
    (n : ℕ) (s : Sent) (o : Option (List Sent × Tried)) → Ends n o → Ends (n + 1) (log_sent s o)
unfolding log_sent
log-Ends n s o (ss, t, e, l) = (s ∷ ss, t, rw e, omega arith)

decide-Ends :
    (n retry_count i : ℕ) (u_path : Text) (a : Attempt) (again on_hub : Option (List Sent × Tried))
    → (i < retry_count → Ends n again)
    → (is_blank u_path ≡ true → Ends n on_hub)
    → Ends n (decide retry_count i u_path a again on_hub)
unfolding decide
decide-Ends n retry_count i u_path timed_out again on_hub h g =
    elim (Bool-cases (ltb i retry_count)) [
      | inl more ↦ rw more (h (ground arith))
      | inr over ↦ rw over ([], gave_up GaveUp.retries_exceeded, refl, omega arith)
    ]
decide-Ends n retry_count i u_path disconnected again on_hub h g =
    ([], gave_up GaveUp.client_gone, refl, omega arith)
decide-Ends n retry_count i u_path failed again on_hub h g =
    ([], gave_up GaveUp.upstream_failed, refl, omega arith)
decide-Ends n retry_count i u_path (answered r) again on_hub h g =
    elim (Bool-cases (r.status == 404 && is_blank u_path)) [
      | inl hub ↦ rw hub (g (ground arith))
      | inr final ↦ rw final ([], got r u_path i, refl, omega arith)
    ]

weaker : (n m : ℕ) (o : Option (List Sent × Tried)) → n ≤ m → Ends n o → Ends m o
weaker n m o le (ss, t, e, l) = (ss, t, e, omega arith)

-- The attempts that are left, but for the present one.
abbrev left : ℕ → ℕ → Text → ℕ
left retry_count i u_path = (retry_count - i) + bit (is_blank u_path)

attempts-Ends :
    (fuel : ℕ) (u : Upstream) (outcome : ℕ → Attempt) (i : ℕ) (u_path r_path : Text)
    → left u.retry_count i u_path < fuel
    → Ends (left u.retry_count i u_path + 1) (attempts fuel u outcome i u_path r_path)
unfolding attempts
attempts-Ends zero u outcome i u_path r_path enough = absurd (omega arith)
attempts-Ends (suc fuel) u outcome i u_path r_path enough =
    let path = path_join u_path r_path in
    log-Ends (left u.retry_count i u_path) _ _ (
      decide-Ends (left u.retry_count i u_path) u.retry_count i u_path (outcome i) _ _
        (λ more.
          weaker (left u.retry_count (i + 1) u_path + 1) _ _ (omega arith)
            (attempts-Ends fuel u outcome (i + 1) u_path path (omega arith)))
        (λ blank.
          weaker (left u.retry_count (i + 1) (codes "/wd/hub") + 1) _ _ (ground (arith, blank))
            (attempts-Ends fuel u outcome (i + 1) (codes "/wd/hub") path (ground (arith, blank)))))

left-lt : (n : ℕ) (u_path : Text) → left n 1 u_path < n + 2
left-lt n [] = omega arith
left-lt n (c ∷ p) = omega arith

-- Whatever the browser does, the loop that asks it for a session ends, after as many attempts as the
-- retry count allows, and at least one, and one more where the path of the WebDriver was not known.
pub attempts_end :
    (u : Upstream) (outcome : ℕ → Attempt) (u_path r_path : Text)
    → (ss : List Sent) × (t : Tried) × (attempts (u.retry_count + 2) u outcome 1 u_path r_path
        ≡ some (ss, t))
      × (length ss ≤ (u.retry_count - 1) + 1 + bit (is_blank u_path))
attempts_end u outcome u_path r_path =
    let (ss, t, e, l) =
      attempts-Ends (u.retry_count + 2) u outcome 1 u_path r_path (left-lt u.retry_count u_path) in
    (ss, t, e, ground arith)

log_some :
    (s : Sent) (o : Option (List Sent × Tried)) (ss : List Sent) (t : Tried)
    → log_sent s o ≡ some (ss, t)
    → (s' : Sent) × (rest : List Sent) × (ss ≡ s' ∷ rest)
unfolding log_sent
log_some s none ss t e = absurd (cc)
log_some s (some (rest, t')) ss t e = (s, rest, sym (cc))

-- The loop asks once at least.
pub attempts_non_empty :
    (fuel : ℕ) (u : Upstream) (outcome : ℕ → Attempt) (i : ℕ) (u_path r_path : Text)
    (ss : List Sent) (t : Tried)
    → attempts fuel u outcome i u_path r_path ≡ some (ss, t)
    → (s : Sent) × (rest : List Sent) × (ss ≡ s ∷ rest)
unfolding attempts
attempts_non_empty zero u outcome i u_path r_path ss t e = absurd (cc)
attempts_non_empty (suc fuel) u outcome i u_path r_path ss t e = log_some _ _ ss t e
