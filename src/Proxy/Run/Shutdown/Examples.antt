-- ===== src/Proxy/Run/Shutdown/Examples.antt =====
-- A server with two sessions, one of which is deleted, and then stops.
use selenoid.Base.{◌≡◌, refl, true, false, none, some, List, [], ◌∷◌, codes}
use selenoid.Session.Samples.{session}
use selenoid.Proxy.{Settings, Request}
use selenoid.Proxy.Run.{System, Event, store, proxy, move, finished}
use selenoid.Proxy.Run.Shutdown.{Ends, main}

abbrev settings : Settings
settings = record {
  enable_file_upload = false;
  temp_dir = codes "/tmp";
  localaddr = codes "127.0.0.1:4444";
}

abbrev delete_first : Request
delete_first = record {
  is_delete = true;
  host = [];
  path = codes "/session/a1";
  request_host = [];
  file_header = none;
}

abbrev events : List Event
events = store (codes "a1") session ∷ store (codes "b2") session ∷ proxy delete_first ∷ move 0 ∷ []

abbrev ends : Ends
ends = record { listen_fails = false; shuts_down = true; closes = true }

-- One session is left in the map.
abbrev last : System
last = record {
  server = record {
    sessions = (codes "b2", 1) ∷ [];
    heap = session ∷ (record session { timeout_ch = 1 }) ∷ [];
    timers =
        record { sid = codes "a1"; closed = true; fired = false }
        ∷ record { sid = codes "b2"; closed = false; fired = false }
        ∷ [];
    num = 1;
    stopped = 0 ∷ [];
    releases = 1;
    wiped = [];
  };
  requests =
      finished (
        some (record delete_first {
          host = codes "10.0.0.1:4444";
          path = codes "/wd/hub/session/a1";
          request_host = codes "localhost";
        }))
      ∷ [];
}

-- Where the requests are not done within the graceful period, the second session is left running.
late_leaves :
    main settings false (record ends { shuts_down = false }) last.server
    ≡ record { server = last.server; client_closed = false; status = 1 }
unfolding main
late_leaves = refl
