-- ===== src/Create/Choice.antt =====
-- selenoid.go, `create`: what is read of the request, and the choice of the browser.
use selenoid.Base.{
  ℕ, Bool, true, false, ◌&&◌, ◌||◌, not, Option, none, some, List, [], ◌∷◌, Text, if◌then◌else◌,
}
use selenoid.Int.{ℤ}
use selenoid.Json.{JsonCodec}
use selenoid.Session.Caps.{
  Caps, CapsFields, plain, no_caps, fields, with_fields, process_extension_capabilities,
  browser_name,
}
use selenoid.Session.Store.{Container, HostPort, Url}
use selenoid.Capabilities.{
  Result, ok, err, panic, get_screen_resolution, get_video_screen_size, get_session_timeout,
}
use selenoid.Create.Attempts.{Attempt}

-- `startedService`, but for its `Cancel`.
pub record Started : Type 0 where
  pub url : Url
  pub container : Option Container
  pub host_port : HostPort
  pub origin : Text

-- The body of the request: `desiredCapabilities`, `alwaysMatch` and `firstMatch`.
pub record Wanted : Type 0 where
  pub desired : Caps
  pub always_match : Caps
  pub first_match : List (Option Caps)

-- The flags of the program.
pub record Flags : Type 0 where
  pub max_timeout : ℤ
  pub timeout : ℤ
  pub disable_docker : Bool
  pub log_output_dir : Text
  pub save_all_logs : Bool
  pub retry_count : ℕ
  pub hostname : Text

-- What is not this handler: the decoder of the capabilities, `mergo.Merge` without and with override,
-- `time.ParseDuration`, the names of `getTemporaryFileName`, `manager.Find`, whose starter is what
-- `StartWithCancel` yields, the ends of the attempts, `url.Parse` for a location and for a socket.
pub record Outside : Type 0 where
  pub decode : Text → Option Wanted
  pub merge : Caps → Caps → Caps
  pub merge_override : Caps → Caps → Caps
  pub parse_duration : Text → Option ℤ
  pub video_file : Text
  pub log_file : Text
  pub find : Caps → Option (Option Started)
  pub outcome : ℕ → Attempt
  pub parse_path : Text → Option Text
  pub set_host : Text → Text → Option Text
  pub json : JsonCodec

-- `if` the temporary names are wanted.
video_name : Flags → Outside → CapsFields → Text
video_name c o f = if f.video && not c.disable_docker then o.video_file else f.video_name

abbrev pub has_dir : Text → Bool
has_dir [] = false
has_dir (c ∷ d) = true

log_name : Flags → Outside → CapsFields → Text
log_name c o f =
    if has_dir c.log_output_dir && (c.save_all_logs || f.log) then o.log_file else f.log_name

-- The capabilities with which a browser is looked for.
named_caps : Flags → Outside → Caps → Text → Text → Caps
unfolding video_name log_name
named_caps c o caps resolution size = with_fields caps (record (fields caps) {
  screen_resolution = resolution;
  video_screen_size = size;
  video_name = video_name c o (fields caps);
  log_name = log_name c o (fields caps);
})

sized : Flags → Outside → Caps → ℤ → Text → Result Text → Result (Caps × ℤ)
unfolding named_caps
sized c o caps t resolution (ok size) = ok (named_caps c o caps resolution size, t)
sized c o caps t resolution (err e) = err e
sized c o caps t resolution panic = panic

resolved : Flags → Outside → Caps → ℤ → Result Text → Result (Caps × ℤ)
unfolding sized
resolved c o caps t (ok resolution) =
    sized c o caps t resolution (get_video_screen_size (fields caps).video_screen_size resolution)
resolved c o caps t (err e) = err e
resolved c o caps t panic = panic

timed : Flags → Outside → Caps → Result ℤ → Result (Caps × ℤ)
unfolding resolved
timed c o caps (ok t) = resolved c o caps t (get_screen_resolution (fields caps).screen_resolution)
timed c o caps (err e) = err e
timed c o caps panic = panic

-- One round of the loop over `firstMatch`, up to `manager.Find`.
pub check_caps : Flags → Outside → Caps → Caps → Result (Caps × ℤ)
unfolding timed
check_caps c o base fmc =
    let caps = process_extension_capabilities o.merge_override (o.merge base fmc) in
    timed c o caps
      (get_session_timeout o.parse_duration (fields caps).session_timeout c.max_timeout c.timeout)

-- What the loop ends with: an error, or a starter, or none that fits.
pub data Choice : Type 0 where
  bad : Choice
  broken : Choice  -- a panic
  unavailable : Choice
  chosen : Caps → ℤ → Option Started → Choice

or_next : Caps → ℤ → Option (Option Started) → Choice → Choice
or_next caps t none next = next
or_next caps t (some starter) next = chosen caps t starter

checked : Outside → Result (Caps × ℤ) → Choice → Choice
unfolding or_next
checked o (ok (caps, t)) next = or_next caps t (o.find caps) next
checked o (err e) next = bad
checked o panic next = broken

-- A `null` in `firstMatch` is a nil pointer, which is dereferenced.
pub choose : Flags → Outside → Caps → List (Option Caps) → Choice
unfolding checked
choose c o base [] = unavailable
choose c o base (none ∷ rest) = broken
choose c o base (some fmc ∷ rest) = checked o (check_caps c o base fmc) (choose c o base rest)

-- The W3C capabilities are taken where they name a browser and the others do not.
pub base_caps : Wanted → Caps
base_caps w =
    if has_dir (browser_name w.always_match) && not (has_dir (browser_name w.desired))
    then w.always_match
    else w.desired

pub first_match : List (Option Caps) → List (Option Caps)
first_match [] = some (plain no_caps) ∷ []
first_match (m ∷ ms) = m ∷ ms
