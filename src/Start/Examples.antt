-- ===== src/Start/Examples.antt =====
-- A program that is started beside a daemon of Docker.
use selenoid.Base.{ℕ, true, false, none, some, [], codes}
use selenoid.Int.{pos}
use selenoid.Config.{loaded}
use selenoid.DockerClient.{Library}
use selenoid.Events
use selenoid.Events.{at_start}
use selenoid.Files.{Asked, Disk}
use selenoid.Queue.{new}
use selenoid.Start.{Flags, Machine, Program}
use selenoid.Start.Ready.{Ready}

abbrev flags : Flags
flags = record {
  version = false;
  disable_docker = false;
  disable_queue = false;
  limit = 5;
  has_log_conf = false;
  mem = pos 0;
  cpu = pos 0;
  container_network = codes "default";
  container_pid = [];
  container_graceful_shutdown = false;
  capture_driver_logs = false;
  disable_privileged = false;
  video_output_dir = codes "video";
  video_recorder_image = codes "selenoid/video-recorder:latest-release";
  log_output_dir = codes "/var/log/";
  save_all_logs = false;
  registry = at_start;
}

abbrev library : Library
library = record {
  new_client = λ v. true;
  server_version = λ v. some (codes "1.24");
  client_version = λ v. v;
  default_version = codes "1.24";
}

-- The log configurations and the instants are numbers here.
abbrev machine : Machine ℕ ℕ
machine = record {
  now = 0;
  hostname = some (codes "hub");
  split_host_port = λ s. none;
  no_logs = 0;
  browsers = loaded [];
  logs = loaded 0;
  has_dockerenv = false;
  getwd = some (codes "/opt");
  mkdir = λ d. true;
  new_session = λ c. true;
  default_docker_host = codes "unix:///var/run/docker.sock";
  parse_host_url = λ h. some (codes "/var/run/docker.sock");
  library = library;
  ggr_host = [];
  docker_host = [];
  docker_api_version = [];
}

abbrev program : Program ℕ ℕ
program = record {
  hostname = codes "hub";
  ggr_host = none;
  queue = new 5 false;
  config = record { last_reload_time = 0; browsers = []; container_logs = 0 };
  directories = record { video_output_dir = codes "/opt/video"; log_output_dir = codes "/var/log" };
  registry = at_start;
  environment = record {
    ip = [];
    in_docker = false;
    memory = pos 0;
    cpu = pos 0;
    network = codes "default";
    graceful_shutdown = false;
    has_log_output_dir = true;
    save_all_logs = false;
    privileged = true;
    pid_mode = [];
    video_output_dir = codes "/opt/video";
    video_container_image = codes "selenoid/video-recorder:latest-release";
  };
  capture_driver_logs = false;
  client = some (codes "1.24");
}

abbrev disk : Disk
disk = record { exists = λ f. true; remove = λ f. none; read_dir = λ f. some [] }

abbrev deletion : Asked
deletion = record { is_delete = true; path = codes "/video/s1.mp4"; has_json = false }
