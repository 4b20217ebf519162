-- ===== src/Service/Docker/Requests.antt =====
-- service/docker.go: what the daemon is asked to create.
use selenoid.Base.{
  ◌>>=◌, ℕ, Bool, true, false, Option, none, some, List, [], ◌∷◌, ◌++◌, Text, text_eq, codes, Dict,
  if◌then◌else◌, leb,
}
use selenoid.Int.{ℤ, pos}
use selenoid.Session.Caps.{CapsFields}
use selenoid.Config.{Browser, Image, image}
use selenoid.Service.Docker.Settings.{
  Environment, Answers, Stat, get_memory, get_cpu, container_env, container_labels, video_env,
}
use selenoid.Service.Docker.Logs.{LogConfig, get_log_config}
use selenoid.Service.Docker.Ports.{PortConfig, get_port_config}

-- `container.Config`
pub record Config : Type 0 where
  pub image_name : Text
  pub env : List Text
  pub exposed_ports : List Text
  pub labels : Dict Text
  pub hostname : Text

-- `container.HostConfig`
pub record HostConfig : Type 0 where
  pub binds : List Text
  pub auto_remove : Bool
  pub port_bindings : Dict (List Text)
  pub log_config : LogConfig
  pub network_mode : Text
  pub tmpfs : Dict Text
  pub shm_size : ℕ
  pub privileged : Bool
  pub memory : ℤ
  pub nano_cpus : ℤ
  pub extra_hosts : List Text
  pub publish_all_ports : Bool
  pub dns : List Text
  pub cap_add : List Text
  pub links : List Text
  pub sysctls : Dict Text
  pub pid_mode : Text

pub record Spec : Type 0 where
  pub config : Config
  pub host_config : HostConfig

-- The settings that can fail.
pub record Prepared : Type 0 where
  pub ports : PortConfig
  pub memory : ℤ
  pub cpu : ℤ

-- The checks of `StartWithCancel` before it creates a container.
unfoldable pub prepare : Environment → CapsFields → Browser → Answers → Option Prepared
prepare env caps b o = do
  ports ← get_port_config o env caps b.port
  memory ← get_memory o env b
  cpu ← get_cpu o env b
  some (record { ports = ports; memory = memory; cpu = cpu })

-- `getShmSize`
shm_size_of : ℕ → ℕ
shm_size_of size = if leb size 0 then 268435456 else size

-- `getExtraHosts`: the entries of the client stand first.
extra_hosts_of : Browser → CapsFields → List Text
extra_hosts_of b caps = caps.hosts_entries ++ b.hosts

-- The manager chooses this starter for images that are names only.
image_of : Image → Text
image_of (image name) = name
image_of _ = []

-- The request for the browser.
unfoldable pub browser_spec :
    Environment → CapsFields → Browser → Answers → LogConfig → Prepared → Spec
unfolding shm_size_of extra_hosts_of image_of
browser_spec env caps b o logs p = record {
  config = record {
    image_name = image_of b.image;
    env = container_env o b caps;
    exposed_ports = p.ports.exposed_ports;
    labels = container_labels b caps;
    hostname = caps.container_hostname;
  };
  host_config = record {
    binds = b.volumes;
    auto_remove = true;
    port_bindings = p.ports.port_bindings;
    log_config = get_log_config logs caps;
    network_mode = env.network;
    tmpfs = b.tmpfs;
    shm_size = shm_size_of b.shm_size;
    privileged = env.privileged;
    memory = p.memory;
    nano_cpus = p.cpu;
    extra_hosts = extra_hosts_of b caps;
    publish_all_ports = b.publish_all_ports;
    dns = caps.dns_servers;
    cap_add = if env.privileged then [] else codes "SYS_ADMIN" ∷ [];
    links = caps.application_containers;
    sysctls = b.sysctl;
    pid_mode = env.pid_mode;
  };
}

abbrev no_logs : LogConfig
no_logs = record { driver = []; config = none }

-- `getVideoOutputDir`
video_dir : Environment → Text → Text
video_dir env [] = env.video_output_dir
video_dir env (c ∷ dir) = c ∷ dir

-- The request for the container that records the video of the browser `id`.
pub video_spec : Environment → CapsFields → Browser → Answers → Text → Stat → Spec
unfolding video_dir
video_spec env caps b o id stat = record {
  config = record {
    image_name = env.video_container_image;
    env = video_env env o b caps id stat;
    exposed_ports = [];
    labels = [];
    hostname = [];
  };
  host_config = record {
    binds = (video_dir env o.video_dir_override ++ codes ":/data:rw,z") ∷ b.volumes;
    auto_remove = true;
    port_bindings = [];
    log_config = no_logs;
    network_mode = env.network;
    tmpfs = [];
    shm_size = 0;
    privileged = false;
    memory = pos 0;
    nano_cpus = pos 0;
    extra_hosts = [];
    publish_all_ports = false;
    dns = [];
    cap_add = [];
    links = if text_eq env.network (codes "default") then (id ++ codes ":browser") ∷ [] else [];
    sysctls = [];
    pid_mode = env.pid_mode;
  };
}
