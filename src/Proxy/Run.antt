-- ===== src/Proxy/Run.antt =====
-- The steps of the requests of selenoid.go on the sessions, and their runs.
pub mod Paths
pub mod Invariant
pub mod Turns
pub mod Places
pub mod Firing
pub mod Interleavings
pub mod Expiry
pub mod Deletion
pub mod Shutdown
mod Examples
use selenoid.Base.{
  ℕ, ◌+◌, Bool, true, false, Option, none, some, List, [], ◌∷◌, ◌++◌, Text, codes, trim_prefix,
  length, get_elem?, set, if◌then◌else◌,
}
use selenoid.Paths.{slash, split, join}
use selenoid.Session.Store.{Ref, Session, SessionMap, new_map, get, put, ensure}
use selenoid.Proxy.{
  Settings, Request, Server, Timer, serial, direct, store_session, renew, start_timer, stop_timer,
  to_error,
}

-- `splitRequestPath`; with fewer than three fragments it panics.
request_parts : List Text → Option (Text × Text)
request_parts (a ∷ b ∷ sid ∷ rest) = some (sid, slash ∷ join rest)
request_parts _ = none

pub split_request_path : Text → Option (Text × Text)
unfolding request_parts
split_request_path p = request_parts (split p)

-- Where a request stands: it has found a session, or is done. The last two keep a session alive as long
-- as they last.
pub data Pc : Type 0 where
  proxying : Request → Text → List Text → Ref → Pc
  forwarding : Text → Ref → Pc
  driving : Text → Ref → Pc
  finished : Option Request → Pc

pub record System : Type 0 where
  pub server : Server
  pub open server use *
  pub requests : List Pc

pub start : System
start = record {
  server = record {
    sessions = new_map;
    heap = [];
    timers = [];
    num = 0;
    stopped = [];
    releases = 0;
    wiped = [];
  };
  requests = [];
}

-- Up to the look-up of the session.
pub look_up : SessionMap → Text → (Ref → Pc) → Request → Pc
look_up m id go q = elim (get m id) [ none ↦ finished (some (to_error q)) | some r ↦ go r ]

find_session : SessionMap → Request → List Text → Pc
unfolding look_up
find_session m q (a ∷ b ∷ id ∷ rest) = look_up m id (proxying q id rest) q
find_session m q _ = finished none

pub begin_proxy : SessionMap → Request → Pc
unfolding find_session
begin_proxy m q = find_session m q (split q.path)

-- `reverseProxy` and `wsdriverRoute` answer themselves where there is no such session, and panic where
-- the path has no id.
forward_to : SessionMap → Option (Text × Text) → Pc
forward_to m none = finished none
forward_to m (some (sid, remaining)) = elim (get m sid) [
  | none ↦ finished none
  | some r ↦ forwarding sid r
]

pub begin_forward : SessionMap → Text → Pc
unfolding forward_to
begin_forward m p = forward_to m (split_request_path p)

pub drive_to : Server → Option (Text × Text) → Server × Pc
drive_to w none = (w, finished none)
drive_to w (some (sid, remaining)) = elim (get w.sessions sid) [
  | none ↦ (serial w, finished none)
  | some r ↦ (w, driving sid r)
]

pub begin_drive : Server → Text → Server × Pc
unfolding drive_to
begin_drive w p = drive_to w (split_request_path p)

-- The request that `Delete` sends when a timer fires, as it reaches the Director: the handler of
-- `/wd/hub/` takes the prefix off and sets the host.
unfoldable pub delete_request : Settings → Text → Request
delete_request c sid = record {
  is_delete = true;
  host = c.localaddr;
  path = trim_prefix (codes "/wd/hub/session/" ++ sid) (codes "/wd/hub");
  request_host = c.localaddr;
  file_header = none;
}

pub data Event : Type 0 where
  store : Text → Session → Event  -- the end of `create`
  proxy : Request → Event
  forward : Text → Event  -- `reverseProxy`, by the path
  drive : Text → Event  -- `wsdriverRoute`, by the path
  move : ℕ → Event  -- a step of one request
  fire : ℕ → Event  -- the time of a timer is up

pub started : System → Server × Pc → System
started s (w, pc) = record { server = w; requests = s.requests ++ (pc ∷ []) }

pub begin : System → Pc → System
unfolding started
begin s pc = started s (serial s.server, pc)

after_direct : Server × Option Request → Server × Pc
after_direct (w, q) = (w, finished q)

-- One step of a request, with the session that its pointer points to.
pub advance : Settings → Server → Pc → Session → Option (Server × Pc)
unfolding after_direct
advance c w (proxying q id rest r) s = some (after_direct (direct c q id rest r s w))
advance c w (forwarding id r) s = some (renew id r s w, forwarding id r)
advance c w (driving id r) s =
    if ensure w.sessions id r
    then some (serial (renew id r s w), driving id r)
    else some (w, finished none)
advance c w (finished q) s = none

pub pointer : Pc → Option (Text × Ref)
pointer (proxying q id rest r) = some (id, r)
pointer (forwarding id r) = some (id, r)
pointer (driving id r) = some (id, r)
pointer (finished q) = none

moved : System → ℕ → Option (Server × Pc) → Option System
moved s i none = none
moved s i (some (w, pc)) = some (record { server = w; requests = set s.requests i pc })

with_session : Settings → System → ℕ → Pc → Option Session → Option System
unfolding moved
with_session c s i pc none = none
with_session c s i pc (some se) = moved s i (advance c s.server pc se)

with_pointer : Settings → System → ℕ → Pc → Option (Text × Ref) → Option System
unfolding with_session
with_pointer c s i pc none = none
with_pointer c s i pc (some (id, r)) = with_session c s i pc (get_elem? s.heap r)

pub move_request : Settings → System → ℕ → Option Pc → Option System
unfolding with_pointer pointer
move_request c s i none = none
move_request c s i (some pc) = with_pointer c s i pc (pointer pc)

-- Only a timer whose channel is open fires, once.
pub fire_timer : Settings → System → ℕ → Option Timer → Option System
unfolding begin
fire_timer c s n none = none
fire_timer c s n (some t) =
    if t.closed
    then none
    else if t.fired
    then none
    else some (
        begin
          (record s {
            server = record s.server { timers = set s.timers n (record t { fired = true }) };
          })
          (begin_proxy s.sessions (delete_request c t.sid)))

pub step : Settings → System → Event → Option System
unfolding begin started fire_timer move_request
step c s (store id se) = some (record s { server = store_session id se s.server })
step c s (proxy q) = some (begin s (begin_proxy s.sessions q))
step c s (forward p) = some (begin s (begin_forward s.sessions p))
step c s (drive p) = some (started s (begin_drive s.server p))
step c s (move i) = move_request c s i (get_elem? s.requests i)
step c s (fire n) = fire_timer c s n (get_elem? s.timers n)

pub run : Settings → System → List Event → Option System
run c s [] = some s
run c s (e ∷ es) = elim (step c s e) [ none ↦ none | some t ↦ run c t es ]
