-- ===== src/Service/Docker/Logs/Examples.antt =====
-- Two tests, of which the second gets the tag of the first.
use selenoid.Base.{◌≡◌, refl, some, [], ◌∷◌, Text, codes, lookup, text_eq}
use selenoid.Int.{pos}
use selenoid.Session.Caps.{no_caps}
use selenoid.Service.Docker.Settings.{get_memory, get_cpu}
use selenoid.Service.Docker.Ports.{get_port_config}
use selenoid.Service.Docker.Logs.{LogConfig}
use selenoid.Service.Docker.Requests.{Prepared, prepare, browser_spec}
use selenoid.Service.Docker.Samples.{environment, browser, answering}
use selenoid.Service.Docker.Logs.Sticky.{tag_of, Start, after, log_tag_sticks}

abbrev test : Text → Start
test name = record {
  environment = environment;
  caps = record no_caps { test_name = name };
  browser = browser;
  answers = answering;
}

abbrev shared : LogConfig
shared = record { driver = codes "syslog"; config = some [] }

abbrev prepared : Prepared
prepared = record {
  ports = record {
    selenium_port = codes "4444/tcp";
    fileserver_port = codes "8080/tcp";
    clipboard_port = codes "9090/tcp";
    devtools_port = codes "7070/tcp";
    vnc_port = [];
    port_bindings = [];
    exposed_ports = codes "4444/tcp" ∷ codes "8080/tcp" ∷ codes "9090/tcp" ∷ codes "7070/tcp" ∷ [];
  };
  memory = pos 0;
  cpu = pos 0;
}

log_tag_sticks_example :
    tag_of
      (browser_spec environment
        (test (codes "logout")).caps
        browser
        answering
        (after shared (test (codes "login") ∷ []))
        prepared).host_config.log_config
    ≡ some (codes "login")
unfolding prepare get_port_config get_memory get_cpu lookup text_eq
log_tag_sticks_example =
    log_tag_sticks shared [] (test (codes "login")) prepared [] (test (codes "logout")) prepared
      refl refl (λ e. cc) refl
