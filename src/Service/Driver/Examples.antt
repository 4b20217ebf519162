-- ===== src/Service/Driver/Examples.antt =====
-- A driver that starts and does not respond, and the theorem about it.
use selenoid.Base.{true, false, some, [], ◌∷◌, codes}
use selenoid.Session.Caps.{no_caps}
use selenoid.Config.{Browser, command}
use selenoid.Service.Driver.{Answers, Environment, start_with_cancel}
use selenoid.Service.Driver.Processes.{LeavesOne, start_with_cancel-LeavesOne}

abbrev browser : Browser
browser = record {
  image = command (some (codes "/usr/bin/chromedriver") ∷ []);
  port = [];
  path = [];
  tmpfs = [];
  volumes = [];
  env = [];
  hosts = [];
  shm_size = 0;
  labels = [];
  sysctl = [];
  mem = [];
  cpu = [];
  publish_all_ports = false;
}

abbrev environment : Environment
environment = record {
  capture_driver_logs = false;
  log_output_dir = codes "/logs";
  save_all_logs = true;
}

abbrev silent : Answers
silent = record {
  listen = some (codes "127.0.0.1:40001", codes "40001");
  log_file = true;
  starts = true;
  responds = false;
  signalled = true;
}

start_with_cancel-LeavesOne_example :
    LeavesOne (start_with_cancel environment no_caps browser silent)
start_with_cancel-LeavesOne_example = start_with_cancel-LeavesOne environment no_caps browser silent
