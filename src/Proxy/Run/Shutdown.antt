-- ===== src/Proxy/Run/Shutdown.antt =====
-- main.go: `main`, from the start of the server to the end of the program.
pub mod Changes
pub mod Accounts
pub mod Storing
pub mod Runs
pub mod Stops
mod Examples
use selenoid.Base.{ℕ, Bool, true, false, List, [], ◌∷◌, Text, if◌then◌else◌}
use selenoid.Session.Store.{Ref, SessionMap}
use selenoid.Proxy.{Settings, Server, wipe}

-- What `main` waits for, and is answered: whether `ListenAndServe` fails before a signal to stop arrives, whether
-- `server.Shutdown` is done within the graceful period, and whether the client of Docker can be closed.
pub record Ends : Type 0 where
  pub listen_fails : Bool
  pub shuts_down : Bool
  pub closes : Bool

-- The program has ended with this status; 1 is that of `log.Fatalf`.
pub record Ended : Type 0 where
  pub server : Server
  pub client_closed : Bool
  pub status : ℕ

-- What `main` does with each session of the map.
stop_session : Settings → Text → Ref → Server → Server
stop_session c id r w = let v = wipe c id w in record v { stopped = r ∷ v.stopped }

pub stop_all : Settings → SessionMap → Server → Server
unfolding stop_session
stop_all c [] w = w
stop_all c ((id, r) ∷ m) w = stop_all c m (stop_session c id r w)

fatal : Server → Ended
fatal w = record { server = w; client_closed = false; status = 1 }

close_client : Bool → Bool → Server → Ended
unfolding fatal
close_client disable_docker closes w =
    if disable_docker
    then record { server = w; client_closed = false; status = 0 }
    else if closes
    then record { server = w; client_closed = true; status = 0 }
    else fatal w

-- `main`, where the server has served until it stops.
pub main : Settings → (disable_docker : Bool) → Ends → Server → Ended
unfolding fatal stop_all close_client
main c disable_docker a w =
    if a.listen_fails
    then fatal w
    else if a.shuts_down
    then close_client disable_docker a.closes (stop_all c w.sessions w)
    else fatal w
