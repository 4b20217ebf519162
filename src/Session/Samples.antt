-- ===== src/Session/Samples.antt =====
-- A session of a browser that listens on 10.0.0.1:4444.
use selenoid.Base.{none, [], codes}
use selenoid.Int.{pos}
use selenoid.Session.Caps.{plain, no_caps}
use selenoid.Session.Store.{Session}

abbrev pub session : Session
session = record {
  quota = codes "unknown";
  caps = plain no_caps;
  url = record { host = codes "10.0.0.1:4444"; path = codes "/wd/hub" };
  container = none;
  host_port = record {
    selenium = [];
    fileserver = [];
    clipboard = [];
    vnc = [];
    devtools = [];
    bidi = [];
  };
  origin = [];
  timeout = pos 60000000000;
  timeout_ch = 0;
}
