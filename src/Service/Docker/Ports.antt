-- ===== src/Service/Docker/Ports.antt =====
-- service/docker.go: the ports of a container, which are asked for by `getPortConfig` and read by
-- `getHostPort` and `getContainerPorts`.
use selenoid.Base.{
  ◌>>=◌, Bool, true, false, not, ◌&&◌, ◌||◌, Option, none, some, List, [], ◌∷◌, Text, text_eq,
  codes, Dict, lookup, insert, if◌then◌else◌,
}
use selenoid.Session.Caps.{CapsFields}
use selenoid.Session.Store.{HostPort}
use selenoid.Service.Docker.Settings.{Environment, Answers, Stat, container_ip, join_host_port}

-- `portConfig`; a binding is to the address 0.0.0.0. The exposed ports are a set, in any order.
pub record PortConfig : Type 0 where
  pub selenium_port : Text
  pub fileserver_port : Text
  pub clipboard_port : Text
  pub devtools_port : Text
  pub vnc_port : Text
  pub port_bindings : Dict (List Text)
  pub exposed_ports : List Text

-- The port of VNC stays empty where VNC is not wanted.
vnc_port_of : Answers → Bool → Option Text
vnc_port_of o true = o.new_port (codes "5900")
vnc_port_of o false = some []

if_vnc : Bool → Text → List Text
if_vnc true port = port ∷ []
if_vnc false port = []

bind_all : List Text → Dict (List Text) → Dict (List Text)
bind_all [] m = m
bind_all (p ∷ ps) m = bind_all ps (insert p (codes "0.0.0.0" ∷ []) m)

binds : Environment → Bool
binds env = not (text_eq env.ip []) || not env.in_docker

-- `getPortConfig`
unfoldable pub get_port_config : Answers → Environment → CapsFields → Text → Option PortConfig
unfolding vnc_port_of if_vnc bind_all binds
get_port_config o env caps service_port = do
  selenium ← o.new_port service_port
  fileserver ← o.new_port (codes "8080")
  clipboard ← o.new_port (codes "9090")
  vnc ← vnc_port_of o caps.vnc
  devtools ← o.new_port (codes "7070")
  let ports = selenium ∷ fileserver ∷ clipboard ∷ devtools ∷ if_vnc caps.vnc vnc
  some (record {
    selenium_port = selenium;
    fileserver_port = fileserver;
    clipboard_port = clipboard;
    devtools_port = devtools;
    vnc_port = vnc;
    port_bindings = if binds env then bind_all ports [] else [];
    exposed_ports = ports;
  })

-- The map `pc` of `StartWithCancel`, whose later keys overwrite.
pub port_map : Text → PortConfig → Dict Text
port_map service_port c = insert (codes "9090") c.clipboard_port (
    insert (codes "8080") c.fileserver_port (
      insert (codes "7070") c.devtools_port
        (insert (codes "5900") c.vnc_port (insert service_port c.selenium_port []))))

nat_port : Dict Text → Text → Text
nat_port pc port = elim (lookup port pc) [ none ↦ [] | some p ↦ p ]

-- `getContainerPorts`: none is the panic at a port without a binding.
first_bindings : (Text → Text) → Dict (List Text) → Dict Text → Option (Dict Text)
first_bindings port_number [] m = some m
first_bindings port_number ((p, []) ∷ ps) m = none
first_bindings port_number ((p, h ∷ hs) ∷ ps) m =
    first_bindings port_number ps (insert (port_number p) h m)

pub container_ports : Answers → Stat → Option (Dict Text)
unfolding first_bindings
container_ports o stat = first_bindings o.port_number stat.ports []

-- A port that is not bound is out of range: `none` is the panic.
bound_to : Text → Option (List Text) → Option Text
bound_to host (some (p ∷ ps)) = some (join_host_port host p)
bound_to host _ = none

or_loopback : Text → Text
or_loopback [] = codes "127.0.0.1"
or_loopback (c ∷ ip) = c ∷ ip

-- The function `fn` of `getHostPort`.
address_of : Environment → Dict Text → Stat → Text → Option Text
unfolding bound_to or_loopback
address_of env pc stat port =
    if text_eq env.ip [] && env.in_docker
    then some (join_host_port (container_ip env.network stat) port)
    else bound_to (or_loopback env.ip) (lookup (nat_port pc port) stat.ports)

vnc_address : Environment → Dict Text → Stat → Bool → Option Text
unfolding address_of
vnc_address env pc stat vnc = if vnc then address_of env pc stat (codes "5900") else some []

-- `getHostPort`
pub host_ports : Environment → Dict Text → Text → CapsFields → Stat → Option HostPort
unfolding address_of vnc_address
host_ports env pc service_port caps stat = elim (address_of env pc stat service_port) [
  | none ↦ none
  | some selenium ↦ elim (address_of env pc stat (codes "8080")) [
    | none ↦ none
    | some fileserver ↦ elim (address_of env pc stat (codes "9090")) [
      | none ↦ none
      | some clipboard ↦ elim (address_of env pc stat (codes "7070")) [
        | none ↦ none
        | some devtools ↦ elim (vnc_address env pc stat caps.vnc) [
          | none ↦ none
          | some vnc ↦ some (record {
            selenium = selenium;
            fileserver = fileserver;
            clipboard = clipboard;
            vnc = vnc;
            devtools = devtools;
            bidi = selenium;
          })
        ]
      ]
    ]
  ]
]
