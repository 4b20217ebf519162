-- ===== src/Service/Docker/Settings.antt =====
-- service/docker.go: the settings of a container that are computed from the configuration and the
-- capabilities.
use selenoid.Base.{
  Bool, true, false, Option, some, List, [], ◌∷◌, ◌++◌, Text, text_eq, codes, Dict, insert,
  if◌then◌else◌, any, ◌==◌, ltb, decimal,
}
use selenoid.Int.{ℤ}
use selenoid.Session.Caps.{CapsFields}
use selenoid.Config.{Browser}

pub record Environment : Type 0 where
  pub ip : Text
  pub in_docker : Bool
  pub memory : ℤ
  pub cpu : ℤ
  pub network : Text
  pub graceful_shutdown : Bool
  pub has_log_output_dir : Bool
  pub save_all_logs : Bool
  pub privileged : Bool
  pub pid_mode : Text
  pub video_output_dir : Text
  pub video_container_image : Text

-- What `ContainerInspect` tells: the addresses, and the host ports to which each port is bound.
pub record Stat : Type 0 where
  pub ip_address : Text
  pub networks : Dict Text
  pub ports : Dict (List Text)
  pub hostname : Option Text

-- What the daemon and the system answer. `new_port` and `port_number` stand for `nat.NewPort` with `tcp` and
-- the method `Port`, `ram_in_bytes` for `units.RAMInBytes`, `parse_cpu` for `strconv.ParseFloat` and the
-- factor 1000000000, `zone` for the name of the time zone, `video_dir_override` for the variable
-- `OVERRIDE_VIDEO_OUTPUT_DIR`.
pub record Answers : Type 0 where
  pub new_port : Text → Option Text
  pub port_number : Text → Text
  pub ram_in_bytes : Text → Option ℤ
  pub parse_cpu : Text → Option ℤ
  pub zone : Text → Text
  pub video_dir_override : Text
  pub create : Option Text
  pub starts : Bool
  pub connects : Text → Bool
  pub inspect : Option Stat
  pub create_video : Option Text
  pub starts_video : Bool
  pub responds : Bool
  pub kills : Bool
  pub gone : Bool

-- `getMemory` and `getCpu`: a limit of the browser, or that of the program.
limit_or : (Text → Option ℤ) → ℤ → Text → Option ℤ
limit_or parse default [] = some default
limit_or parse default (c ∷ t) = parse (c ∷ t)

unfoldable pub get_memory : Answers → Environment → Browser → Option ℤ
unfolding limit_or
get_memory o env b = limit_or o.ram_in_bytes env.memory b.mem

unfoldable pub get_cpu : Answers → Environment → Browser → Option ℤ
unfolding limit_or
get_cpu o env b = limit_or o.parse_cpu env.cpu b.cpu

show_bool : Bool → Text
show_bool true = codes "true"
show_bool false = codes "false"

optional : Text → Text → List Text
optional name [] = []
optional name (c ∷ t) = (name ++ (c ∷ t)) ∷ []

-- `getEnv`
pub container_env : Answers → Browser → CapsFields → List Text
unfolding show_bool optional
container_env o b caps =
    (codes "TZ=" ++ o.zone caps.time_zone)
    ∷ (codes "SCREEN_RESOLUTION=" ++ caps.screen_resolution)
    ∷ (codes "ENABLE_VNC=" ++ show_bool caps.vnc)
    ∷ (codes "ENABLE_VIDEO=" ++ show_bool caps.video)
    ∷ (optional (codes "SKIN=") caps.skin
        ++ (optional (codes "CODEC=") caps.video_codec ++ (b.env ++ caps.env)))

insert_all : Dict Text → Dict Text → Dict Text
insert_all [] m = m
insert_all ((k, v) ∷ kvs) m = insert_all kvs (insert k v m)

name_label : Text → Dict Text
name_label [] = []
name_label (c ∷ t) = (codes "name", c ∷ t) ∷ []

-- `getLabels`
pub container_labels : Browser → CapsFields → Dict Text
unfolding insert_all name_label
container_labels b caps = insert_all caps.labels (insert_all b.labels (name_label caps.test_name))

-- `getContainerIP`: the address in this network, or the first of another.
network_ip : Text → Text → Dict Text → Text
network_ip name first [] = first
network_ip name first ((n, []) ∷ ns) = network_ip name first ns
network_ip name [] ((n, c ∷ ip) ∷ ns) =
    let rest = network_ip name (c ∷ ip) ns in if text_eq n name then c ∷ ip else rest
network_ip name (d ∷ first) ((n, c ∷ ip) ∷ ns) =
    let rest = network_ip name (d ∷ first) ns in if text_eq n name then c ∷ ip else rest

ip_or : Text → Stat → Text → Text
unfolding network_ip
ip_or name stat [] = network_ip name [] stat.networks
ip_or name stat (c ∷ ip) = c ∷ ip

pub container_ip : Text → Stat → Text
unfolding ip_or
container_ip name stat = ip_or name stat stat.ip_address

-- `net.JoinHostPort`: a host with colons is put in brackets.
pub join_host_port : Text → Text → Text
join_host_port host port =
    if any (λ c. c == b':') host
    then b'[' ∷ (host ++ (b']' ∷ b':' ∷ port))
    else host ++ (b':' ∷ port)

-- The name by which the video container reaches the browser.
browser_name_for : Environment → Stat → Text
browser_name_for env stat =
    if text_eq env.network (codes "default") then codes "browser" else container_ip env.network stat

-- The environment of the video container.
pub video_env : Environment → Answers → Browser → CapsFields → Text → Stat → List Text
unfolding optional browser_name_for
video_env env o b caps id stat =
    container_env o b caps
    ++ ((codes "FILE_NAME=" ++ caps.video_name)
        ∷ (codes "BROWSER_CONTAINER_ID=" ++ id)
        ∷ (optional (codes "VIDEO_SIZE=") caps.video_screen_size
            ++ ((if ltb 0 caps.video_frame_rate
                  then (codes "FRAME_RATE=" ++ decimal caps.video_frame_rate) ∷ []
                  else [])
                ++ ((codes "BROWSER_CONTAINER_NAME=" ++ browser_name_for env stat) ∷ []))))
