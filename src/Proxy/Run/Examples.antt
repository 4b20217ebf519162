-- ===== src/Proxy/Run/Examples.antt =====
-- A server with one session, and the theorems about it.
use selenoid.Base.{
  ◌≡◌, refl, true, false, none, some, List, [], ◌∷◌, Text, codes, ◌⊎◌, ◌↔◌, lookup, insert, text_eq,
  has_suffix, has_prefix, total, ◌≤◌, delete, ◌+◌,
}
use selenoid.Proxy.Run.Turns.{turns, turn, opening, stores, asks, is_store, turns-places_le}
use selenoid.Paths.{split, clean, clean_elements, clean_element, is_rooted, join, or_dot, path_join}
use selenoid.Session.Samples.{session}
use selenoid.Session.Store.{get, put, new_map, remove, len}
use selenoid.Proxy.{
  Settings, Request, Timer, direct, is_vendor, is_empty, to_browser, file_path, or_localhost,
  store_session, start_timer, on_timeout, end_session, wipe, stop_timer, close, serial,
}
use selenoid.Proxy.Run.{
  System, Event, store, proxy, move, start, run, step, begin, started, begin_proxy, find_session,
  look_up, move_request, with_pointer, with_session, moved, pointer, advance, after_direct,
  finished,
}
use selenoid.Proxy.Watched.{Watched}
use selenoid.Proxy.Targets.{direct_panics_iff, direct_host}
use selenoid.Proxy.Run.Invariant.{run-Watched}
use selenoid.Proxy.Run.Expiry.{delete_ends_session}
use selenoid.Proxy.Run.Deletion.{Ended}

abbrev settings : Settings
settings = record {
  enable_file_upload = true;
  temp_dir = codes "/tmp";
  localaddr = codes "127.0.0.1:4444";
}

abbrev sid : Text
sid = codes "a1"

abbrev timer : Timer
timer = record { sid = sid; closed = false; fired = false }

abbrev one_session : List Event
one_session = store sid session ∷ []

abbrev running : System
running = record {
  server = record {
    sessions = (sid, 0) ∷ [];
    heap = session ∷ [];
    timers = timer ∷ [];
    num = 0;
    stopped = [];
    releases = 0;
    wiped = [];
  };
  requests = [];
}

one_session_runs : run settings start one_session ≡ some running
unfolding run step start store_session start_timer on_timeout put insert new_map
one_session_runs = refl

there : get running.sessions sid ≡ some 0
unfolding get lookup text_eq
there = refl

abbrev deletion : Request
deletion = record {
  is_delete = true;
  host = codes "127.0.0.1:4444";
  path = codes "/session/a1";
  request_host = codes "selenoid:4444";
  file_header = none;
}

deletion_split : split deletion.path ≡ [] ∷ codes "session" ∷ sid ∷ []
unfolding split
deletion_split = refl

run-Watched_example : Watched running.server
run-Watched_example = run-Watched settings one_session running one_session_runs

delete_ends_session_example :
    (v : System) × (run settings running (proxy deletion ∷ move 0 ∷ []) ≡ some v)
    × Ended running.server sid 0 v.server
delete_ends_session_example =
    delete_ends_session settings one_session running one_session_runs deletion [] (codes "session")
      sid 0 refl deletion_split there

direct_panics_iff_example :
    ((direct settings deletion sid (codes "aerokube" ∷ []) 0 session running.server).1 ≡ none)
    ↔ (codes "aerokube" ∷ [] ≡ codes "aerokube" ∷ [])
direct_panics_iff_example =
    direct_panics_iff settings deletion sid (codes "aerokube" ∷ []) 0 session running.server

abbrev sent : Request
sent = record deletion {
  host = codes "10.0.0.1:4444";
  path = codes "/wd/hub/session/a1";
  request_host = codes "localhost";
}

deletion-sent : (direct settings deletion sid [] 0 session running.server).1 ≡ some sent
unfolding direct is_vendor is_empty to_browser file_path has_suffix has_prefix clean split join
    clean_elements clean_element is_rooted text_eq
deletion-sent = refl

direct_host_example :
    ((sent.host ≡ session.url.host) × (sent.request_host ≡ or_localhost session.origin))
    ⊎ ((sent.host ≡ settings.localaddr) × (sent.request_host ≡ deletion.request_host))
direct_host_example =
    direct_host settings deletion sid [] 0 session running.server sent refl deletion-sent

-- The session is stored, and deleted.
abbrev ended : System
ended = record {
  server = record {
    sessions = [];
    heap = session ∷ [];
    timers = record { sid = sid; closed = true; fired = false } ∷ [];
    num = 1;
    stopped = 0 ∷ [];
    releases = 1;
    wiped = codes "/tmp/a1" ∷ [];
  };
  requests = finished (some sent) ∷ [];
}

stored_and_deleted : turns settings start (stores sid session ∷ asks deletion ∷ []) ≡ some ended
unfolding turns turn opening run step start store_session start_timer on_timeout put insert new_map
    get lookup remove delete text_eq begin started begin_proxy find_session look_up split
    move_request with_pointer with_session moved pointer advance after_direct direct is_vendor
    is_empty to_browser file_path has_suffix has_prefix clean join clean_elements clean_element
    is_rooted or_dot end_session wipe stop_timer close serial path_join
stored_and_deleted = refl

turns-places_le_example :
    ended.releases + len ended.sessions ≤ total is_store (stores sid session ∷ asks deletion ∷ [])
turns-places_le_example =
    turns-places_le settings (stores sid session ∷ asks deletion ∷ []) ended stored_and_deleted
