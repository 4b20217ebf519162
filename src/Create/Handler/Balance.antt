-- ===== src/Create/Handler/Balance.antt =====
-- The handler `create` of selenoid.go leaves the queue and the browsers balanced.
use selenoid.Base.{
  ℕ, ◌+◌, ◌≡◌, refl, ap, sym, ◌∙◌, Bool, true, Option, none, some, List, [], ◌∷◌, ◌++◌, map, Text,
  arith, Bool-cases, inl, inr, ◌⊎◌, total, total-append, any, codes,
}
use mathlib.Core.Path.{subst}
use selenoid.Int.{ℤ}
use selenoid.Paths.{split, path_join}
use selenoid.Session.Caps.{Caps}
use selenoid.Capabilities.{Result, ok, err, panic}
use selenoid.Create.Choice.{
  Started, Wanted, Flags, Outside, Choice, bad, broken, unavailable, chosen, has_dir,
}
use selenoid.Create.Attempts.{
  Reply, Sent, Tried, got, gave_up, retries_exceeded, client_gone, upstream_failed, attempts,
}
use selenoid.Create.Attempts.Bounded.{attempts_end, attempts_non_empty}
use selenoid.Create.Handler.{
  Asked, Action, dropped, answered_error, answered_status, located, written, sent, End, returned,
  panicked, Handled, ErrorKind, refused, failed, finish, by_location, processed, by_body, answer,
  after_attempts, with_sent, tried, launched, decoded, read, create, upstream, last_of,
}
use selenoid.Create.Handler.Counts.{
  drops, creates, cancels, stores, is_sent, Balanced, Untouched, Good,
}

finish-Good :
    (a : Asked) (caps : Caps) (t : ℤ) (s : Started) (p : Text) (before : List Action) (id : Text)
    → Untouched before
    → Good true (finish a caps t s p before id)
unfolding Good finish failed
finish-Good a caps t s p before [] h = (
  omega (arith, h, total-append drops before _, total-append creates before _),
  omega (arith, h, total-append stores before _, total-append creates before _),
  omega (arith, h, total-append cancels before _, total-append creates before _),
)
finish-Good a caps t s p before (c ∷ id) h = (
  omega (arith, h, total-append drops before _, total-append creates before _),
  omega (arith, h, total-append stores before _, total-append creates before _),
  omega (arith, h, total-append cancels before _, total-append creates before _),
)

location-Good :
    (c : Flags) (a : Asked) (caps : Caps) (t : ℤ) (s : Started) (p : Text) (r : Reply)
    (o : Option Text)
    → Good true (by_location c a caps t s p r o)
unfolding by_location
location-Good c a caps t s p r none = finish-Good a caps t s p [] [] (refl, refl, refl, refl)
location-Good c a caps t s p r (some l) =
    finish-Good a caps t s p
      (located (
          codes "http://"
          ++ (c.hostname ++ path_join (codes "/wd/hub/session") (last_of [] (split l))))
        ∷ answered_status r.status
        ∷ [])
      _ (refl, refl, refl, refl)

processed-Good :
    (a : Asked) (caps : Caps) (t : ℤ) (s : Started) (p : Text) (r : Reply)
    (o : Result (Text × Text))
    → Good true (processed a caps t s p r o)
unfolding processed Good
processed-Good a caps t s p r (ok (body, id)) =
    finish-Good a caps t s p (answered_status r.status ∷ written body ∷ []) id
      (refl, refl, refl, refl)
processed-Good a caps t s p r (err e) = (refl, refl, refl)
processed-Good a caps t s p r panic = (refl, refl, refl, refl)

body-Good :
    (o : Outside) (a : Asked) (caps : Caps) (t : ℤ) (s : Started) (p : Text) (r : Reply)
    (b : Option Text)
    → Good true (by_body o a caps t s p r b)
unfolding by_body
body-Good o a caps t s p r none = unfold Good in (refl, refl, refl)
body-Good o a caps t s p r (some b) = processed-Good a caps t s p r _

answer-Good :
    (c : Flags) (o : Outside) (a : Asked) (caps : Caps) (t : ℤ) (s : Started) (p : Text) (r : Reply)
    → Good true (answer c o a caps t s p r)
unfolding answer
answer-Good c o a caps t s p r = elim (Bool-cases (has_dir r.location)) [
  | inl there ↦ rw there (location-Good c a caps t s p r _)
  | inr not_there ↦ rw not_there (body-Good o a caps t s p r _)
]

after_attempts-Good :
    (c : Flags) (o : Outside) (a : Asked) (caps : Caps) (t : ℤ) (s : Started) (r : Tried)
    → Good true (after_attempts c o a caps t s r)
unfolding after_attempts
after_attempts-Good c o a caps t s (got r p i) = answer-Good c o a caps t s p r
after_attempts-Good c o a caps t s (gave_up retries_exceeded) =
    unfold Good failed in (refl, refl, refl)
after_attempts-Good c o a caps t s (gave_up client_gone) = unfold Good failed in (refl, refl, refl)
after_attempts-Good c o a caps t s (gave_up upstream_failed) =
    unfold Good failed in (refl, refl, refl)

total-sent :
    (w : Action → ℕ) (ss : List Sent) → ((s : Sent) → w (sent s) ≡ 0) → total w (map sent ss) ≡ 0
total-sent w [] h = refl
total-sent w (s ∷ ss) h = omega (arith, h s, total-sent w ss h)

sent_first :
    (w : Action → ℕ) (ss : List Sent) (acts : List Action)
    → ((s : Sent) → w (sent s) ≡ 0)
    → total w (map sent ss ++ acts) ≡ total w acts
sent_first w ss acts h = omega (arith, total-append w (map sent ss) acts, total-sent w ss h)

with_sent-Good : (b : Bool) (ss : List Sent) (h : Handled) → Good b h → Good b (with_sent ss h)
unfolding with_sent Good
with_sent-Good b ss (acts, returned) g = (
  omega (arith, g, sent_first drops ss acts (λ s. refl), sent_first creates ss acts (λ s. refl)),
  omega (arith, g, sent_first stores ss acts (λ s. refl), sent_first creates ss acts (λ s. refl)),
  omega (arith, g, sent_first cancels ss acts (λ s. refl), sent_first creates ss acts (λ s. refl)),
)
with_sent-Good b ss (acts, panicked) g = (
  omega (arith, g, sent_first drops ss acts (λ s. refl)),
  omega (arith, g, sent_first creates ss acts (λ s. refl)),
  omega (arith, g, sent_first cancels ss acts (λ s. refl)),
  omega (arith, g, sent_first stores ss acts (λ s. refl)),
)

tried-Good :
    (c : Flags) (o : Outside) (a : Asked) (caps : Caps) (t : ℤ) (s : Started)
    (r : Option (List Sent × Tried)) (ss : List Sent) (x : Tried)
    → r ≡ some (ss, x)
    → tried c o a caps t s r ≡ some (with_sent ss (after_attempts c o a caps t s x))
unfolding tried
tried-Good c o a caps t s r ss x e = rw e

-- What is claimed of a handled request.
Correct : Handled → Type 0
Correct (acts, returned) = Balanced (any is_sent acts) acts
Correct (acts, panicked) = Untouched acts

asked_once :
    (ss : List Sent) (s : Sent) (rest : List Sent) (h : Handled)
    → ss ≡ s ∷ rest
    → Good true (with_sent ss h)
    → Correct (with_sent ss h)
unfolding Good Correct with_sent
asked_once ss s rest (acts, returned) e g =
    let found : any is_sent (map sent ss ++ acts) ≡ true =
      ap (λ l. any is_sent (map sent l ++ acts)) e in
    subst (λ b. Balanced b (map sent ss ++ acts)) (sym found) g
asked_once ss s rest (acts, panicked) e g = g

-- The handler ends, and ends well.
abbrev Settled : Option Handled → Type 0
Settled o = (h : Handled) × (o ≡ some h) × Correct h

refused-Settled : (e : ErrorKind) → Settled (some (refused e))
unfolding Correct refused
refused-Settled e = ((answered_error e ∷ dropped ∷ [], returned), refl, (refl, refl, refl))

launched-Settled :
    (c : Flags) (o : Outside) (a : Asked) (body : Text) (choice : Choice)
    → Settled (launched c o a body choice)
unfolding launched
launched-Settled c o a body bad = refused-Settled _
launched-Settled c o a body broken =
    unfold Correct in (([], panicked), refl, (refl, refl, refl, refl))
launched-Settled c o a body unavailable = refused-Settled _
launched-Settled c o a body (chosen caps t none) = refused-Settled _
launched-Settled c o a body (chosen caps t (some s)) =
    let u = upstream c o a body s in
    let count : u.retry_count ≡ c.retry_count = unfold upstream in refl in
    let (ss, x, e, l) = attempts_end u o.outcome s.url.path a.path in
    let ended : attempts (c.retry_count + 2) u o.outcome 1 s.url.path a.path ≡ some (ss, x) =
      ap (λ n. attempts (n + 2) u o.outcome 1 s.url.path a.path) (sym count) ∙ e in
    let (first, rest, shape) = attempts_non_empty _ u o.outcome 1 s.url.path a.path ss x ended in
    let h = after_attempts c o a caps t s x in
    (
      with_sent ss h,
      tried-Good c o a caps t s _ ss x ended,
      asked_once ss first rest h shape
          (with_sent-Good true ss h (after_attempts-Good c o a caps t s x)),
    )

decoded-Settled :
    (c : Flags) (o : Outside) (a : Asked) (body : Text) (w : Option Wanted)
    → Settled (decoded c o a body w)
unfolding decoded
decoded-Settled c o a body none = refused-Settled _
decoded-Settled c o a body (some w) = launched-Settled c o a body _

read-Settled : (c : Flags) (o : Outside) (a : Asked) (b : Option Text) → Settled (read c o a b)
unfolding read
read-Settled c o a none = refused-Settled _
read-Settled c o a (some body) = decoded-Settled c o a body _

by_end :
    (acts : List Action) (e : End)
    → Correct (acts, e)
    → ((e ≡ returned) × Balanced (any is_sent acts) acts) ⊎ ((e ≡ panicked) × Untouched acts)
unfolding Correct
by_end acts returned h = inl (refl, h)
by_end acts panicked h = inr (refl, h)

-- Whatever the client, the browser and the service do, the handler for new sessions ends. Where it
-- returns, it has called exactly one of `Drop` and `Create`; the session is in the map if and only if it
-- has called `Create`; and a browser that was asked for a session has its session in the map or was
-- stopped, once, while none is stopped that was not asked. Where it panics, it has done nothing of this.
pub create-Balanced :
    (c : Flags) (o : Outside) (a : Asked)
    → (acts : List Action) × (e : End) × (create c o a ≡ some (acts, e))
      × (((e ≡ returned) × Balanced (any is_sent acts) acts) ⊎ ((e ≡ panicked) × Untouched acts))
unfolding create
create-Balanced c o a =
    let ((acts, e), shape, correct) = read-Settled c o a a.body in
    (acts, e, shape, by_end acts e correct)
