-- ===== src/Proxy.antt =====
-- selenoid.go: `proxy`, `reverseProxy`, `wsdriverRoute`, `onTimeout` and the end of `create`, around the
-- sessions that they share.
--
-- A request looks its session up first and uses it later. Both are steps of their own, so that requests
-- interleave between them; what stands under the lock of a session is one step. So is the renewal of a
-- timeout that `reverseProxy` and `wsdriverRoute` do without the lock.
pub mod Run
pub mod Watched
pub mod Ending
pub mod Storing
pub mod Targets
mod Steps
pub mod Timing
use selenoid.Base.{
  ℕ, zero, suc, ◌+◌, ◌%◌, ◌^◌, Bool, true, false, ◌&&◌, Option, none, some, List, [], ◌∷◌, ◌++◌,
  Text, text_eq, codes, has_suffix, trim_suffix, length, get_elem?, set, if◌then◌else◌,
}
use selenoid.Paths.{slash, split, join, clean, path_join}
use selenoid.Session.Store.{Ref, Session, SessionMap, get, put, remove, len, ensure}

-- A channel of `onTimeout` with its goroutine: whether the channel is closed, and whether the time was
-- up first. `sid` is the session that the goroutine then deletes.
pub record Timer : Type 0 where
  pub sid : Text
  pub closed : Bool
  pub fired : Bool

-- `select { case <-ch: default: close(ch) }`: nothing is ever sent on these channels.
pub close : ℕ → List Timer → List Timer
close zero [] = []
close zero (t ∷ ts) = record t { closed = true } ∷ ts
close (suc n) [] = []
close (suc n) (t ∷ ts) = t ∷ close n ts

pub on_timeout : Text → List Timer → List Timer
on_timeout sid ts = ts ++ (record { sid = sid; closed = false; fired = false } ∷ [])

-- What the Director sees of a request, and may change: `host` and `path` are those of the URL,
-- `request_host` is the header, `file_header` the header `X-Selenoid-File`.
pub record Request : Type 0 where
  pub is_delete : Bool
  pub host : Text
  pub path : Text
  pub request_host : Text
  pub file_header : Option Text

pub record Settings : Type 0 where
  pub enable_file_upload : Bool
  pub temp_dir : Text
  pub localaddr : Text

-- `heap` holds every session that was ever stored; `stopped` those whose `Cancel` was called, `releases`
-- the calls of `queue.Release`, `wiped` the directories that were removed.
pub record Server : Type 0 where
  pub sessions : SessionMap
  pub heap : List Session
  pub timers : List Timer
  pub num : ℕ
  pub stopped : List Ref
  pub releases : ℕ
  pub wiped : List Text

pub serial : Server → Server
serial w = record w { num = (w.num + 1) % 2 ^ 64 }

-- Closes the timeout channel of a session.
pub stop_timer : Session → Server → Server
unfolding close
stop_timer s w = record w { timers = close s.timeout_ch w.timers }

-- Gives it the channel of a new timer.
pub start_timer : Text → Ref → Session → Server → Server
unfolding on_timeout
start_timer sid r s w = record w {
  timers = on_timeout sid w.timers;
  heap = set w.heap r (record s { timeout_ch = length w.timers });
}

abbrev pub renew : Text → Ref → Session → Server → Server
renew sid r s w = start_timer sid r s (stop_timer s w)

pub wipe : Settings → Text → Server → Server
wipe c id w =
    if c.enable_file_upload then record w { wiped = path_join c.temp_dir id ∷ w.wiped } else w

-- The branch of the Director for the DELETE of a session; `cancel` is called when the request is done.
pub end_session : Settings → Text → Ref → Server → Server
unfolding wipe
end_session c id r w =
    let v = wipe c id w in
    record v { sessions = remove v.sessions id; releases = v.releases + 1; stopped = r ∷ v.stopped }

abbrev or_localhost : Text → Text
or_localhost [] = codes "localhost"
or_localhost (c ∷ origin) = c ∷ origin

file_path : Text → Text
file_path p =
    if has_suffix p (codes "/se/file") then trim_suffix p (codes "/se/file") ++ codes "/file" else p

-- The request to the WebDriver of the session.
pub to_browser : Session → Request → Request
unfolding file_path
to_browser s q = record q {
  host = s.url.host;
  path = clean (s.url.path ++ file_path q.path);
  request_host = or_localhost s.origin;
}

-- The upload of a file: it is answered by Selenoid itself.
pub to_upload : Settings → Text → Request → Request
to_upload c id q = record q { file_header = some (path_join c.temp_dir id); path = codes "/file" }

-- `/session/<id>/aerokube/<app>/…` becomes `/<app>/<id>/…` on this server.
unfoldable pub to_app : Settings → Text → Text → List Text → Request → Request
to_app c id app more q = record q { host = c.localaddr; path = clean (join ([] ∷ app ∷ id ∷ more)) }

is_vendor : List Text → Bool
is_vendor [] = false
is_vendor (v ∷ more) = text_eq v (codes "aerokube")

is_upload : Settings → List Text → Bool
is_upload c (f ∷ []) = text_eq f (codes "file") && c.enable_file_upload
is_upload c _ = false

is_empty : List Text → Bool
is_empty [] = true
is_empty (f ∷ fs) = false

-- `fragments[4]` is out of range behind a last `aerokube`: `none` is the panic.
vendor_target : Settings → Text → List Text → Request → Option Request
vendor_target c id (v ∷ app ∷ more) q = some (to_app c id app more q)
vendor_target c id _ q = none

-- What the Director does with a session that it has found; `rest` are the fragments behind the id.
pub direct :
    Settings → Request → Text → List Text → Ref → Session → Server → Server × Option Request
unfolding vendor_target is_vendor is_upload is_empty end_session
direct c q id rest r s w =
    if is_vendor rest
    then (w, vendor_target c id rest q)
    else if q.is_delete && is_empty rest
    then (end_session c id r (stop_timer s w), some (to_browser s q))
    else (
      renew id r s w,
      if is_upload c rest then some (to_upload c id q) else some (to_browser s q),
    )

-- The request for a session that is not there.
pub to_error : Request → Request
to_error q = record q { path = codes "/error" }

-- `sess.TimeoutCh = onTimeout(…)` on a new session, and `sessions.Put`.
pub store_session : Text → Session → Server → Server
store_session id s w =
    let r = length w.heap in
    record (start_timer id r s (record w { heap = w.heap ++ (s ∷ []) })) {
      sessions = put w.sessions id r;
    }
