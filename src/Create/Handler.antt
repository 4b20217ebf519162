-- ===== src/Create/Handler.antt =====
-- selenoid.go, `create`: the handler.
pub mod Balance
pub mod Counts
mod Examples
use selenoid.Base.{
  ℕ, ◌+◌, Bool, true, false, ◌&&◌, ◌||◌, not, Option, none, some, List, [], ◌∷◌, ◌++◌, map, Text,
  text_eq, codes, if◌then◌else◌,
}
use selenoid.Int.{ℤ}
use selenoid.Json.{JsonCodec}
use selenoid.Paths.{slash, split, path_join}
use selenoid.Session.Caps.{
  Caps, CapsFields, plain, no_caps, fields, with_fields, process_extension_capabilities,
  browser_name,
}
use selenoid.Session.Store.{Session, Container, HostPort, Url}
use selenoid.Capabilities.{
  Result, ok, err, panic, get_screen_resolution, get_video_screen_size, get_session_timeout,
}
use selenoid.Create.Choice.{
  Started, Wanted, Flags, Outside, Choice, bad, broken, unavailable, chosen, choose, base_caps,
  first_match, has_dir,
}
use selenoid.Create.Body.{process_body, remove_selenoid_options}
use selenoid.Create.Attempts.{
  Attempt, Reply, Sent, Tried, GaveUp, got, gave_up, retries_exceeded, client_gone, upstream_failed,
  Upstream, attempts,
}

-- The request: its body, which may fail to be read, its path, its host, its content type and its user.
pub record Asked : Type 0 where
  pub body : Option Text
  pub path : Text
  pub host : Text
  pub content_type : Text
  pub user : Text

pub data ErrorKind : Type 0 where
  invalid_argument session_not_created unknown_error : ErrorKind

-- `stored`: `sessions.Put`. `cancelled`: the browser is stopped.
pub data Action : Type 0 where
  dropped created cancelled : Action
  answered_error : ErrorKind → Action
  answered_status : ℕ → Action
  located : Text → Action
  written : Text → Action
  sent : Sent → Action
  stored : Text → Session → Action

pub data End : Type 0 where
  returned panicked : End

abbrev pub Handled : Type 0
Handled = List Action × End

refused : ErrorKind → Handled
refused e = (answered_error e ∷ dropped ∷ [], returned)

-- The session is stopped again.
failed : List Action → Handled
failed before = (before ++ (dropped ∷ cancelled ∷ []), returned)

new_session : Asked → Caps → ℤ → Started → Text → Session
new_session a caps t s u_path = record {
  quota = a.user;
  caps = caps;
  url = record { host = s.url.host; path = u_path };
  container = s.container;
  host_port = s.host_port;
  origin = s.origin;
  timeout = t;
  timeout_ch = 0;
}

-- From the id of the session on.
finish : Asked → Caps → ℤ → Started → Text → List Action → Text → Handled
unfolding failed new_session
finish a caps t s u_path before [] = failed before
finish a caps t s u_path before (c ∷ id) =
    (before ++ (stored (c ∷ id) (new_session a caps t s u_path) ∷ created ∷ []), returned)

last_of : Text → List Text → Text
last_of d [] = d
last_of d (f ∷ fs) = last_of f fs

-- A location that does not parse leaves the id empty and answers nothing.
by_location : Flags → Asked → Caps → ℤ → Started → Text → Reply → Option Text → Handled
unfolding finish last_of
by_location c a caps t s u_path r none = finish a caps t s u_path [] []
by_location c a caps t s u_path r (some p) =
    let id = last_of [] (split p) in
    finish a caps t s u_path
      (located (codes "http://" ++ (c.hostname ++ path_join (codes "/wd/hub/session") id))
        ∷ answered_status r.status
        ∷ [])
      id

processed : Asked → Caps → ℤ → Started → Text → Reply → Result (Text × Text) → Handled
unfolding finish
processed a caps t s u_path r (ok (body, id)) =
    finish a caps t s u_path (answered_status r.status ∷ written body ∷ []) id
processed a caps t s u_path r (err e) =
    (dropped ∷ cancelled ∷ answered_status r.status ∷ [], returned)
processed a caps t s u_path r panic = ([], panicked)

by_body : Outside → Asked → Caps → ℤ → Started → Text → Reply → Option Text → Handled
unfolding processed
by_body o a caps t s u_path r none = (dropped ∷ cancelled ∷ answered_status r.status ∷ [], returned)
by_body o a caps t s u_path r (some body) =
    processed a caps t s u_path r (process_body o.json o.set_host body a.host)

answer : Flags → Outside → Asked → Caps → ℤ → Started → Text → Reply → Handled
unfolding by_location by_body
answer c o a caps t s u_path r =
    if has_dir r.location
    then by_location c a caps t s u_path r (o.parse_path r.location)
    else by_body o a caps t s u_path r r.body

after_attempts : Flags → Outside → Asked → Caps → ℤ → Started → Tried → Handled
unfolding answer failed
after_attempts c o a caps t s (got r u_path i) = answer c o a caps t s u_path r
after_attempts c o a caps t s (gave_up retries_exceeded) =
    failed (answered_error unknown_error ∷ [])
after_attempts c o a caps t s (gave_up client_gone) = failed []
after_attempts c o a caps t s (gave_up upstream_failed) =
    failed (answered_error session_not_created ∷ [])

with_sent : List Sent → Handled → Handled
with_sent ss (actions, e) = (map sent ss ++ actions, e)

-- `none`: the attempts are out of fuel.
tried : Flags → Outside → Asked → Caps → ℤ → Started → Option (List Sent × Tried) → Option Handled
unfolding after_attempts with_sent
tried c o a caps t s none = none
tried c o a caps t s (some (ss, r)) = some (with_sent ss (after_attempts c o a caps t s r))

origin_or_localhost : Text → Text
origin_or_localhost [] = codes "localhost"
origin_or_localhost (c ∷ origin) = c ∷ origin

upstream : Flags → Outside → Asked → Text → Started → Upstream
unfolding origin_or_localhost
upstream c o a body s = record {
  host = s.url.host;
  request_host = origin_or_localhost s.origin;
  content_type = a.content_type;
  body = remove_selenoid_options o.json body;
  retry_count = c.retry_count;
}

-- With the fuel `retry_count + 2`; see Create.Attempts.Bounded.
launched : Flags → Outside → Asked → Text → Choice → Option Handled
unfolding tried upstream refused
launched c o a body bad = some (refused invalid_argument)
launched c o a body broken = some ([], panicked)
launched c o a body unavailable = some (refused invalid_argument)
launched c o a body (chosen caps t none) = some (refused session_not_created)
launched c o a body (chosen caps t (some s)) =
    tried c o a caps t s
      (attempts (c.retry_count + 2) (upstream c o a body s) o.outcome 1 s.url.path a.path)

decoded : Flags → Outside → Asked → Text → Option Wanted → Option Handled
unfolding launched refused
decoded c o a body none = some (refused invalid_argument)
decoded c o a body (some w) =
    launched c o a body (choose c o (base_caps w) (first_match w.first_match))

read : Flags → Outside → Asked → Option Text → Option Handled
unfolding decoded refused
read c o a none = some (refused invalid_argument)
read c o a (some body) = decoded c o a body (o.decode body)

pub create : Flags → Outside → Asked → Option Handled
unfolding read
create c o a = read c o a a.body
