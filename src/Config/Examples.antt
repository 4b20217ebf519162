-- ===== src/Config/Examples.antt =====
-- A configuration, and the theorems about it.
use selenoid.Base.{ℕ, false, [], ◌∷◌, codes}
use selenoid.Config.{Config, Versions, Browser, image}

abbrev chrome : Browser
chrome = record {
  image = image (codes "selenoid/chrome:120.0");
  port = codes "4444";
  path = [];
  tmpfs = [];
  volumes = [];
  env = [];
  hosts = [];
  shm_size = 0;
  labels = [];
  sysctl = [];
  mem = [];
  cpu = [];
  publish_all_ports = false;
}

abbrev versions : Versions
versions = record {
  default = codes "120.0";
  versions = (codes "119.0", chrome) ∷ (codes "120.0", chrome) ∷ [];
}

abbrev config : Config ℕ ℕ
config = record {
  last_reload_time = 0;
  browsers = (codes "chrome", versions) ∷ [];
  container_logs = 0;
}
