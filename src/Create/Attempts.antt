-- ===== src/Create/Attempts.antt =====
-- selenoid.go, `create`: the loop that asks the started browser for a session.
pub mod Bounded
use selenoid.Base.{
  ℕ, zero, suc, ◌+◌, Bool, true, false, ◌&&◌, Option, none, some, List, [], ◌∷◌, Text, codes, ltb,
  ◌==◌, if◌then◌else◌,
}
use selenoid.Paths.{path_join}

-- The response of the browser. `location` is empty where there is no such header; the body may fail to be
-- read.
pub record Reply : Type 0 where
  pub status : ℕ
  pub location : Text
  pub body : Option Text

-- How one attempt ends: its deadline is over, the client is gone, `httpClient.Do` fails, or answers.
pub data Attempt : Type 0 where
  timed_out : Attempt
  disconnected : Attempt
  failed : Attempt
  answered : Reply → Attempt

-- The request of one attempt.
pub record Sent : Type 0 where
  pub host : Text
  pub path : Text
  pub request_host : Text
  pub content_type : Text
  pub body : Text

pub data GaveUp : Type 0 where
  retries_exceeded client_gone upstream_failed : GaveUp

-- Where the loop ends: with a response, the path of the WebDriver, and the number of the attempt.
pub data Tried : Type 0 where
  got : Reply → Text → ℕ → Tried
  gave_up : GaveUp → Tried

abbrev pub is_blank : Text → Bool
is_blank [] = true
is_blank (c ∷ t) = false

-- What follows an attempt, with what the next one comes to, on the same path or on `/wd/hub`.
decide :
    ℕ
    → ℕ
    → Text
    → Attempt
    → Option (List Sent × Tried)
    → Option (List Sent × Tried)
    → Option (List Sent × Tried)
decide retry_count i u_path timed_out again on_hub =
    if ltb i retry_count then again else some ([], gave_up retries_exceeded)
decide retry_count i u_path disconnected again on_hub = some ([], gave_up client_gone)
decide retry_count i u_path failed again on_hub = some ([], gave_up upstream_failed)
decide retry_count i u_path (answered r) again on_hub =
    if r.status == 404 && is_blank u_path then on_hub else some ([], got r u_path i)

log_sent : Sent → Option (List Sent × Tried) → Option (List Sent × Tried)
log_sent s none = none
log_sent s (some (ss, t)) = some (s ∷ ss, t)

-- What stays the same over the attempts.
pub record Upstream : Type 0 where
  pub host : Text
  pub request_host : Text
  pub content_type : Text
  pub body : Text
  pub retry_count : ℕ

-- Each attempt joins the path of the WebDriver and the path of the request, which is then the path of the
-- request. `none`: out of fuel.
pub attempts : ℕ → Upstream → (ℕ → Attempt) → ℕ → Text → Text → Option (List Sent × Tried)
unfolding decide log_sent
attempts zero u outcome i u_path r_path = none
attempts (suc fuel) u outcome i u_path r_path =
    let path = path_join u_path r_path in
    let again = attempts fuel u outcome (i + 1) u_path path in
    let on_hub = attempts fuel u outcome (i + 1) (codes "/wd/hub") path in
    log_sent
      (record {
        host = u.host;
        path = path;
        request_host = u.request_host;
        content_type = u.content_type;
        body = u.body;
      })
      (decide u.retry_count i u_path (outcome i) again on_hub)
