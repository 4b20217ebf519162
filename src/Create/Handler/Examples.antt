-- ===== src/Create/Handler/Examples.antt =====
-- Requests for a new session, and the theorems about them.
use selenoid.Base.{
  ℕ, zero, suc, ◌+◌, ◌-◌, ◌≤◌, ◌≡◌, false, none, some, List, [], codes, any, bit, length, ◌⊎◌,
}
use selenoid.Int.{pos}
use selenoid.Json.Prefix.{prefix_json}
use selenoid.Session.Caps.{plain, no_caps}
use selenoid.Create.Attempts.{
  Attempt, timed_out, answered, Sent, Tried, Upstream, attempts, is_blank,
}
use selenoid.Create.Attempts.Bounded.{attempts_end}
use selenoid.Create.Choice.{Started, Flags, Outside}
use selenoid.Create.Handler.{Asked, Action, End, returned, panicked, create}
use selenoid.Create.Handler.Balance.{create-Balanced}
use selenoid.Create.Handler.Counts.{Balanced, Untouched, is_sent}

-- A browser that answers the first attempt with 404, lets the second time out, and then has a session.
abbrev slow : ℕ → Attempt
slow (suc zero) = answered (record { status = 404; location = []; body = none })
slow (suc (suc zero)) = timed_out
slow _ = answered (record { status = 200; location = codes "/wd/hub/session/a1"; body = none })

abbrev flags : Flags
flags = record {
  max_timeout = pos 3600000000000;
  timeout = pos 60000000000;
  disable_docker = false;
  log_output_dir = [];
  save_all_logs = false;
  retry_count = 3;
  hostname = codes "selenoid";
}

abbrev browser : Started
browser = record {
  url = record { host = codes "10.0.0.1:4444"; path = [] };
  container = none;
  host_port = record {
    selenium = [];
    fileserver = [];
    clipboard = [];
    vnc = [];
    devtools = [];
    bidi = [];
  };
  origin = [];
}

abbrev outside : Outside
outside = record {
  decode = λ t.
      some (record { desired = plain no_caps; always_match = plain no_caps; first_match = [] });
  merge = λ dst src. dst;
  merge_override = λ dst src. dst;
  parse_duration = λ t. none;
  video_file = codes "selenoid00.mp4";
  log_file = codes "selenoid00.log";
  find = λ c. some (some browser);
  outcome = slow;
  parse_path = λ l. some l;
  set_host = λ u h. none;
  json = prefix_json;
}

abbrev asked : Asked
asked = record {
  body = some (codes "{}");
  path = codes "/session";
  host = codes "selenoid:4444";
  content_type = [];
  user = codes "unknown";
}

create-Balanced_example :
    (acts : List Action) × (e : End) × (create flags outside asked ≡ some (acts, e))
    × (((e ≡ returned) × Balanced (any is_sent acts) acts) ⊎ ((e ≡ panicked) × Untouched acts))
create-Balanced_example = create-Balanced flags outside asked

abbrev slow_upstream : Upstream
slow_upstream = record {
  host = codes "10.0.0.1:4444";
  request_host = codes "localhost";
  content_type = [];
  body = codes "{}";
  retry_count = 3;
}

attempts_end_example :
    (ss : List Sent) × (t : Tried) × (attempts 5 slow_upstream slow 1 [] (codes "/session")
      ≡ some (ss, t))
    × (length ss ≤ (3 - 1) + 1 + bit (is_blank []))
attempts_end_example = attempts_end slow_upstream slow [] (codes "/session")
