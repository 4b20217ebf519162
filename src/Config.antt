-- ===== src/Config.antt =====
-- config/config.go: the browsers that are configured, and the state that `/status` reports.
pub mod Find
pub mod Counts
mod Examples
use selenoid.Base.{
  ℕ, suc, ◌+◌, Bool, true, false, Option, none, some, List, [], ◌∷◌, ◌++◌, Text, has_prefix, Dict,
  lookup, insert, length, if◌then◌else◌,
}
use selenoid.Session.Caps.{Caps, fields, browser_name}
use selenoid.Session.Store.{Session, Container}

-- The `interface{}` of an image: a name, the command of a driver, whose words may fail to be strings, or
-- something else.
pub data Image : Type 0 where
  image : Text → Image
  command : List (Option Text) → Image
  other : Image

pub record Browser : Type 0 where
  pub image : Image
  pub port : Text
  pub path : Text
  pub tmpfs : Dict Text
  pub volumes : List Text
  pub env : List Text
  pub hosts : List Text
  pub shm_size : ℕ
  pub labels : Dict Text
  pub sysctl : Dict Text
  pub mem : Text
  pub cpu : Text
  pub publish_all_ports : Bool

pub record Versions : Type 0 where
  pub default : Text
  pub versions : Dict Browser

-- `Logs` stands for the log configuration of Docker, `Time` for instants.
pub record Config (Logs Time : Type 0) : Type 0 where
  pub last_reload_time : Time
  pub browsers : Dict Versions
  pub container_logs : Logs

-- A file that was read and parsed, or an error.
pub data Loaded (A : Type 0) : Type 0 where
  loaded : A → Loaded A
  failed : Loaded A

-- The first version in the order of the iteration.
find_version : Text → Dict Browser → Option Browser × Text × Bool
find_version version [] = (none, version, false)
find_version version ((v, b) ∷ vs) =
    let rest = find_version version vs in if has_prefix v version then (some b, v, true) else rest

abbrev pub default_version : Text → Text → Text
default_version [] default = default
default_version (c ∷ v) default = c ∷ v

find_non_empty : Text → Dict Browser → Option Browser × Text × Bool
unfolding find_version
find_non_empty [] vs = (none, [], false)
find_non_empty (c ∷ v) vs = find_version (c ∷ v) vs

find_in : Text → Option Versions → Option Browser × Text × Bool
unfolding find_non_empty
find_in version none = (none, [], false)
find_in version (some b) = find_non_empty (default_version version b.default) b.versions

module _ {Logs Time : Type 0} where
  replace : Config Logs Time → Time → Dict Versions → Loaded Logs → Config Logs Time × Bool
  replace c now br (loaded cl) =
      (record { last_reload_time = now; browsers = br; container_logs = cl }, true)
  replace c now br failed = (c, false)

  -- `Load`, given what the files hold; `no_logs` is the empty log configuration, and there may be no file
  -- for it. The flag is false where an error is returned.
  unfoldable pub load :
      Config Logs Time
      → Time
      → Logs
      → Loaded (Dict Versions)
      → Option (Loaded Logs)
      → Config Logs Time × Bool
  unfolding replace
  load c now no_logs failed logs = (c, false)
  load c now no_logs (loaded br) none = replace c now br (loaded no_logs)
  load c now no_logs (loaded br) (some file) = replace c now br file

  pub find : Config Logs Time → Text → Text → Option Browser × Text × Bool
  unfolding find_in
  find c name version = find_in version (lookup name c.browsers)

-- What is reported of one session. `started` is left out.
pub record Entry : Type 0 where
  pub id : Text
  pub container : Text
  pub container_info : Option Container
  pub vnc : Bool
  pub screen : Text
  pub caps : Caps

pub record Sessions : Type 0 where
  pub count : ℕ
  pub sessions : List Entry

abbrev pub Quota : Type 0
Quota = Dict Sessions

abbrev pub Version : Type 0
Version = Dict Quota

abbrev pub Browsers : Type 0
Browsers = Dict Version

pub record State : Type 0 where
  pub total : ℕ
  pub used : ℕ
  pub queued : ℕ
  pub pending : ℕ
  pub browsers : Browsers

or_empty {ℓ} : {V : Type ℓ} → Option (Dict V) → Dict V
or_empty none = []
or_empty (some m) = m

is_set : Text → Bool
is_set [] = false
is_set (c ∷ t) = true

container_id : Option Container → Text
container_id none = []
container_id (some c) = c.id

entry : Text → Session → Entry
unfolding is_set container_id
entry id s = record {
  id = id;
  container = container_id s.container;
  container_info = s.container;
  vnc = is_set s.host_port.vnc;
  screen = (fields s.caps).screen_resolution;
  caps = s.caps;
}

one_more : Entry → Option Sessions → Sessions
one_more e none = record { count = 1; sessions = e ∷ [] }
one_more e (some s) = record { count = s.count + 1; sessions = s.sessions ++ (e ∷ []) }

add_to_quota : Text → Entry → Quota → Quota
unfolding one_more
add_to_quota user e q = insert user (one_more e (lookup user q)) q

add_to_version : Text → Text → Entry → Version → Version
unfolding add_to_quota or_empty
add_to_version version user e v =
    insert version (add_to_quota user e (or_empty (lookup version v))) v

add_to_browsers : Text → Text → Text → Entry → Browsers → Browsers
unfolding add_to_version or_empty
add_to_browsers name version user e b =
    insert name (add_to_version version user e (or_empty (lookup name b))) b

-- The function that `State` hands to `sessions.Each`.
pub add_session : State → Text × Session → State
unfolding add_to_browsers entry
add_session st (id, s) = record st {
  used = st.used + 1;
  browsers =
      add_to_browsers (browser_name s.caps) (fields s.caps).version s.quota (entry id s)
        st.browsers;
}

add_sessions : State → List (Text × Session) → State
unfolding add_session
add_sessions st [] = st
add_sessions st (s ∷ ss) = add_sessions (add_session st s) ss

no_quotas : Dict Browser → Version → Version
no_quotas [] v = v
no_quotas ((n, b) ∷ vs) v = no_quotas vs (insert n [] v)

configured : Dict Versions → Browsers → Browsers
unfolding no_quotas
configured [] b = b
configured ((n, v) ∷ vs) b = configured vs (insert n (no_quotas v.versions []) b)

-- `State`, over the sessions of the map in the order of the iteration.
pub state :
    {Logs Time : Type 0}
    → Config Logs Time
    → List (Text × Session)
    → (limit queued pending : ℕ) → State
unfolding add_sessions configured
state c sessions limit queued pending =
    add_sessions
      (record {
        total = limit;
        used = 0;
        queued = queued;
        pending = pending;
        browsers = configured c.browsers [];
      })
      sessions
