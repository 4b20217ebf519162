-- ===== src/Start.antt =====
-- main.go: `init`, `parseGgrHost` and `onSIGHUP`: what the program is set up with before it serves.
pub mod Ready
pub mod Inside
mod Examples
use selenoid.Base.{
  ◌>>=◌, ℕ, Bool, true, false, not, ◌&&◌, Option, none, some, List, [], ◌∷◌, Text, text_eq, Dict,
  if◌then◌else◌,
}
use selenoid.Int.{ℤ}
use selenoid.Paths.{clean, is_rooted, path_join}
use selenoid.Config.{Config, Loaded, Versions, load}
use selenoid.DockerClient.{Library, Made, atoi, create_compatible_docker_client}
use selenoid.Events.{AwsConfig, Registry}
use selenoid.Files.{Directories}
use selenoid.Queue.{Queue, new}
use selenoid.Service.Docker.Settings.{Environment}

-- The flags that `init` itself looks at or passes on to the queue and to the starters; `registry` has the
-- uploaders with their flags.
pub record Flags : Type 0 where
  pub version : Bool
  pub disable_docker : Bool
  pub disable_queue : Bool
  pub limit : ℕ
  pub has_log_conf : Bool
  pub mem : ℤ
  pub cpu : ℤ
  pub container_network : Text
  pub container_pid : Text
  pub container_graceful_shutdown : Bool
  pub capture_driver_logs : Bool
  pub disable_privileged : Bool
  pub video_output_dir : Text
  pub video_recorder_image : Text
  pub log_output_dir : Text
  pub save_all_logs : Bool
  pub registry : Registry

-- What the system and the libraries answer: `split_host_port` stands for `net.SplitHostPort`, `parse_host_url`
-- for `client.ParseHostURL` and the field `Host`, `new_session` for that of AWS, and the last fields are
-- environment variables. `browsers` and `logs` are what the files of the configuration hold.
pub record Machine (Logs Time : Type 0) : Type 0 where
  pub now : Time
  pub hostname : Option Text
  pub split_host_port : Text → Option (Text × Text)
  pub no_logs : Logs
  pub browsers : Loaded (Dict Versions)
  pub logs : Loaded Logs
  pub has_dockerenv : Bool
  pub getwd : Option Text
  pub mkdir : Text → Bool
  pub new_session : AwsConfig → Bool
  pub default_docker_host : Text
  pub parse_host_url : Text → Option Text
  pub library : Library
  pub ggr_host : Text
  pub docker_host : Text
  pub docker_api_version : Text

-- `ggr.Host`, as far as it is set.
abbrev pub GgrHost : Type 0
GgrHost = Text × ℕ

-- The variables that `init` sets; `client` is the version of the client of Docker, where there is one.
pub record Program (Logs Time : Type 0) : Type 0 where
  pub hostname : Text
  pub ggr_host : Option GgrHost
  pub queue : Queue
  pub config : Config Logs Time
  pub directories : Directories
  pub registry : Registry
  pub environment : Environment
  pub capture_driver_logs : Bool
  pub client : Option Text

-- The program goes on to `main`, has ended with a status, or has panicked.
pub data Outcome (A : Type 0) : Type 0 where
  ready : A → Outcome A
  exits : ℕ → Outcome A
  panics : Outcome A

port_of : Text → Option ℕ → Option GgrHost
port_of h none = none
port_of h (some port) = some (h, port)

-- `parseGgrHost`; `none` is `log.Fatalf`, here and below.
parse_ggr_host : Option (Text × Text) → Option GgrHost
unfolding port_of
parse_ggr_host none = none
parse_ggr_host (some (h, p)) = port_of h (atoi p)

ggr_host_of : (Text → Option (Text × Text)) → Text → Option (Option GgrHost)
unfolding parse_ggr_host
ggr_host_of split [] = some none
ggr_host_of split (c ∷ s) = do host ← parse_ggr_host (split (c ∷ s)); some (some host)

-- `filepath.Abs`, given what `os.Getwd` answers.
pub abs : Option Text → Text → Option Text
abs wd p =
    if is_rooted p then some (clean p) else elim wd [ none ↦ none | some d ↦ some (path_join d p) ]

created : (Text → Bool) → Text → Option Text
created mkdir dir = if mkdir dir then some dir else none

-- `filepath.Abs` and `os.MkdirAll`.
pub output_dir : Option Text → (Text → Bool) → Text → Option Text
unfolding created
output_dir wd mkdir p = do dir ← abs wd p; created mkdir dir

log_dir : Option Text → (Text → Bool) → Text → Option Text
log_dir wd mkdir [] = some []
log_dir wd mkdir (c ∷ p) = output_dir wd mkdir (c ∷ p)

host_or_default : Text → Text → Text
host_or_default [] default = default
host_or_default (c ∷ host) default = c ∷ host

-- `ip, _, _ := net.SplitHostPort(u.Host)`
ip_of : Option (Text × Text) → Text
ip_of none = []
ip_of (some (ip, port)) = ip

module _ {Logs Time : Type 0} where
  -- `config.NewConfig()`
  new_config : Machine Logs Time → Config Logs Time
  new_config m = record { last_reload_time = m.now; browsers = []; container_logs = m.no_logs }

  log_conf : Flags → Machine Logs Time → Option (Loaded Logs)
  log_conf f m = if f.has_log_conf then some m.logs else none

  loaded_config : Config Logs Time × Bool → Option (Config Logs Time)
  loaded_config (c, ok) = if ok then some c else none

  -- `onSIGHUP`: the files are read again, and an error changes nothing.
  pub on_sighup : Flags → Machine Logs Time → Config Logs Time → Config Logs Time
  unfolding log_conf
  on_sighup f m c = (load c m.now m.no_logs m.browsers (log_conf f m)).0

  environment_of : Flags → Machine Logs Time → (video logs : Text) → Environment
  environment_of f m video logs = record {
    ip = [];
    in_docker = m.has_dockerenv;
    memory = f.mem;
    cpu = f.cpu;
    network = f.container_network;
    graceful_shutdown = f.container_graceful_shutdown;
    has_log_output_dir = not (text_eq logs []);
    save_all_logs = f.save_all_logs;
    privileged = not f.disable_privileged;
    pid_mode = f.container_pid;
    video_output_dir = video;
    video_container_image = f.video_recorder_image;
  }

  -- The directory of the videos, which is made where Docker is used.
  video_dir_of : Flags → Machine Logs Time → Option Text
  video_dir_of f m =
      if f.disable_docker
      then some f.video_output_dir
      else output_dir m.getwd m.mkdir f.video_output_dir

  -- Up to the environment of the starters.
  pub prepare : Flags → Machine Logs Time → Option (Program Logs Time)
  unfolding ggr_host_of new_config log_conf loaded_config log_dir environment_of video_dir_of
  prepare f m = do
    hostname ← m.hostname
    ggr ← ggr_host_of m.split_host_port m.ggr_host
    config ← loaded_config (load (new_config m) m.now m.no_logs m.browsers (log_conf f m))
    video ← video_dir_of f m
    logs ← log_dir m.getwd m.mkdir f.log_output_dir
    registry ← selenoid.Events.init m.new_session f.registry
    some (record {
      hostname = hostname;
      ggr_host = ggr;
      queue = new f.limit f.disable_queue;
      config = config;
      directories = record { video_output_dir = video; log_output_dir = logs };
      registry = registry;
      environment = environment_of f m video logs;
      capture_driver_logs = f.capture_driver_logs;
      client = none;
    })

  -- The manager of drivers.
  without_docker : Program Logs Time → Outcome (Program Logs Time)
  without_docker p =
      if not (text_eq p.directories.log_output_dir []) && p.capture_driver_logs
      then exits 1
      else ready p

  -- The manager with a client of Docker.
  with_client : Program Logs Time → Text → Option Made → Outcome (Program Logs Time)
  with_client p ip none = panics
  with_client p ip (some (actions, none)) = exits 1
  with_client p ip (some (actions, some version)) =
      ready (record p { environment = record p.environment { ip = ip }; client = some version })

  with_docker : Machine Logs Time → Program Logs Time → Option Text → Outcome (Program Logs Time)
  unfolding with_client ip_of
  with_docker m p none = exits 1
  with_docker m p (some host) =
      with_client p (ip_of (m.split_host_port host))
        (create_compatible_docker_client m.library m.docker_api_version)

  pub managed : Flags → Machine Logs Time → Option (Program Logs Time) → Outcome (Program Logs Time)
  unfolding without_docker with_docker host_or_default
  managed f m none = exits 1
  managed f m (some p) =
      if f.disable_docker
      then without_docker p
      else with_docker m p (m.parse_host_url (host_or_default m.docker_host m.default_docker_host))

  -- `init`, behind the parsing of the flags.
  pub init : Flags → Machine Logs Time → Outcome (Program Logs Time)
  init f m = if f.version then exits 0 else managed f m (prepare f m)
