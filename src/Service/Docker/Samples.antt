-- ===== src/Service/Docker/Samples.antt =====
-- A browser in a container, and a daemon that does what it is asked for.
use selenoid.Base.{true, false, none, some, [], ◌++◌, codes}
use selenoid.Int.{pos}
use selenoid.Config.{Browser, image}
use selenoid.Service.Docker.Settings.{Environment, Answers}

abbrev pub browser : Browser
browser = record {
  image = image (codes "selenoid/chrome:120.0");
  port = codes "4444";
  path = [];
  tmpfs = [];
  volumes = [];
  env = [];
  hosts = [];
  shm_size = 0;
  labels = [];
  sysctl = [];
  mem = [];
  cpu = [];
  publish_all_ports = false;
}

abbrev pub environment : Environment
environment = record {
  ip = [];
  in_docker = true;
  memory = pos 0;
  cpu = pos 0;
  network = codes "default";
  graceful_shutdown = true;
  has_log_output_dir = false;
  save_all_logs = false;
  privileged = true;
  pid_mode = [];
  video_output_dir = codes "/opt/video";
  video_container_image = codes "selenoid/video-recorder";
}

abbrev pub answering : Answers
answering = record {
  new_port = λ p. some (p ++ codes "/tcp");
  port_number = λ p. p;
  ram_in_bytes = λ t. none;
  parse_cpu = λ t. none;
  zone = λ t. codes "UTC";
  video_dir_override = [];
  create = some (codes "c1");
  starts = true;
  connects = λ n. true;
  inspect = some (record {
    ip_address = codes "172.17.0.2";
    networks = [];
    ports = [];
    hostname = some (codes "c1");
  });
  create_video = some (codes "v1");
  starts_video = true;
  responds = true;
  kills = true;
  gone = false;
}
