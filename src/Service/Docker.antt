-- ===== src/Service/Docker.antt =====
-- service/docker.go: the containers of a session, from `StartWithCancel` to `Cancel`.
pub mod Settings
pub mod Ports
pub mod Logs
pub mod Requests
pub mod Containers
pub mod Counts
mod Samples
mod Examples
use selenoid.Base.{
  ℕ, Bool, true, false, not, ◌&&◌, ◌||◌, Option, none, some, List, [], ◌∷◌, ◌++◌, Text, codes, Dict,
  if◌then◌else◌,
}
use selenoid.Session.Caps.{CapsFields}
use selenoid.Session.Store.{Url, HostPort}
use selenoid.Config.{Browser}
use selenoid.Service.Docker.Settings.{Environment, Answers, Stat, container_ip, join_host_port}
use selenoid.Service.Docker.Ports.{port_map, host_ports, container_ports}
use selenoid.Service.Docker.Logs.{LogConfig, get_log_config}
use selenoid.Service.Docker.Requests.{Spec, Prepared, prepare, browser_spec, video_spec}

-- The calls of the Docker daemon.
pub data Call : Type 0 where
  created : Text → Spec → Call
  started connected stopped removed killed : Text → Call
  copied_logs : Text → Call

-- `StartedService`: `ports` are the published ports, where all are published.
pub data Launch : Type 0 where
  failed : Launch
  panicked : Launch
  running :
      Url
      → HostPort
      → (container ip origin : Text) → (ports : Option (Dict Text)) → (video : Option Text) → Launch

-- `removeContainer`; that a call fails is only logged.
pub remove_container : Environment → Text → List Call
remove_container env id =
    if env.graceful_shutdown then stopped id ∷ removed id ∷ [] else removed id ∷ []

-- `stopVideoContainer`: a container that cannot be killed, or is gone, is not removed.
pub stop_video : Environment → Answers → Text → List Call
unfolding remove_container
stop_video env o id =
    if not o.kills
    then killed id ∷ []
    else if o.gone
    then killed id ∷ []
    else killed id ∷ remove_container env id

saves_logs : Environment → CapsFields → Bool
saves_logs env caps = env.has_log_output_dir && (env.save_all_logs || caps.log)

pub stop_video_of : Environment → Answers → Option Text → List Call
unfolding stop_video
stop_video_of env o none = []
stop_video_of env o (some v) = stop_video env o v

-- `Cancel`
pub cancel : Environment → CapsFields → Answers → Text → Option Text → List Call
unfolding saves_logs stop_video_of remove_container
cancel env caps o id video =
    stop_video_of env o video
    ++ ((if saves_logs env caps then copied_logs id ∷ [] else []) ++ remove_container env id)

-- The networks up to the first that fails.
pub connect_all : Answers → Text → List Text → List Call × Bool
connect_all o id [] = ([], true)
connect_all o id (n ∷ ns) =
    let (calls, good) = connect_all o id ns in
    if o.connects n then (connected n ∷ calls, good) else ([], false)

origin_of : Text → Option Text → Text
origin_of port none = []
origin_of port (some host) = join_host_port host port

-- The ports that are reported; the outer `none` is the panic of `getContainerPorts`.
published : Browser → Answers → Stat → Option (Option (Dict Text))
published b o stat =
    if b.publish_all_ports
    then elim (container_ports o stat) [ none ↦ none | some ports ↦ some (some ports) ]
    else some none

started_service :
    Environment
    → Browser
    → Text
    → Stat
    → HostPort
    → Option Text
    → List Call
    → Option (Option (Dict Text))
    → List Call × Launch
unfolding origin_of
started_service env b id stat hp video before none = (before, panicked)
started_service env b id stat hp video before (some ports) = (
  before,
  running (record { host = hp.selenium; path = b.path }) hp id (container_ip env.network stat)
      (origin_of b.port stat.hostname) ports video,
)

-- The service is waited for.
await :
    Environment
    → CapsFields
    → Browser
    → Answers
    → Text
    → Stat
    → HostPort
    → Option Text
    → List Call
    → List Call × Launch
unfolding stop_video_of remove_container started_service published
await env caps b o id stat hp video before =
    if o.responds
    then started_service env b id stat hp video before (published b o stat)
    else (before ++ (stop_video_of env o video ++ remove_container env id), failed)

-- `startVideoContainer`
start_video :
    Environment
    → CapsFields
    → Browser
    → Answers
    → Text
    → Stat
    → HostPort
    → List Call
    → Option Text
    → List Call × Launch
unfolding await remove_container
start_video env caps b o id stat hp before none = (before ++ remove_container env id, failed)
start_video env caps b o id stat hp before (some v) =
    if o.starts_video
    then await env caps b o id stat hp (some v)
        (before ++ (created v (video_spec env caps b o id stat) ∷ started v ∷ []))
    else (
      before
          ++ (created v (video_spec env caps b o id stat)
              ∷ (remove_container env id ++ remove_container env v)),
      failed,
    )

with_ports :
    Environment
    → CapsFields
    → Browser
    → Answers
    → Text
    → List Call
    → Stat
    → Option HostPort
    → List Call × Launch
unfolding start_video await
with_ports env caps b o id before stat none = (before, panicked)
with_ports env caps b o id before stat (some hp) =
    if caps.video
    then start_video env caps b o id stat hp before o.create_video
    else await env caps b o id stat hp none before

inspected :
    Environment
    → CapsFields
    → Browser
    → Answers
    → Prepared
    → Text
    → List Call
    → Option Stat
    → List Call × Launch
unfolding with_ports remove_container
inspected env caps b o p id before none = (before ++ remove_container env id, failed)
inspected env caps b o p id before (some stat) =
    with_ports env caps b o id before stat
      (host_ports env (port_map b.port p.ports) b.port caps stat)

-- A network that cannot be connected ends the start and leaves the container.
networked :
    Environment
    → CapsFields
    → Browser
    → Answers
    → Prepared
    → Text
    → List Call
    → List Call × Bool
    → List Call × Launch
unfolding inspected
networked env caps b o p id before (calls, false) = (before ++ calls, failed)
networked env caps b o p id before (calls, true) =
    inspected env caps b o p id (before ++ calls) o.inspect

launch :
    Environment
    → CapsFields
    → Browser
    → LogConfig
    → Answers
    → Prepared
    → Option Text
    → List Call × Launch
unfolding networked connect_all remove_container
launch env caps b logs o p none = ([], failed)
launch env caps b logs o p (some id) =
    let create = created id (browser_spec env caps b o logs p) in
    if o.starts
    then networked env caps b o p id (create ∷ started id ∷ [])
        (connect_all o id caps.additional_networks)
    else (create ∷ remove_container env id, failed)

prepared :
    Environment → CapsFields → Browser → LogConfig → Answers → Option Prepared → List Call × Launch
unfolding launch
prepared env caps b logs o none = ([], failed)
prepared env caps b logs o (some p) = launch env caps b logs o p o.create

-- `StartWithCancel`; `logs` is the log configuration that all starts share.
pub start_with_cancel :
    Environment → CapsFields → Browser → LogConfig → Answers → List Call × Launch
unfolding prepared
start_with_cancel env caps b logs o = prepared env caps b logs o (prepare env caps b o)

unfoldable pub written : LogConfig → CapsFields → Option Prepared → LogConfig
written logs caps none = logs
written logs caps (some p) = get_log_config logs caps

-- The shared log configuration behind a start.
unfoldable pub logs_after : Environment → CapsFields → Browser → LogConfig → Answers → LogConfig
unfolding written
logs_after env caps b logs o = written logs caps (prepare env caps b o)
