-- ===== src/Session/Caps.antt =====
-- session/session.go, `Caps`: what a client asks for.
use selenoid.Base.{ℕ, ◌≡◌, Bool, false, List, [], ◌∷◌, Text, Dict}

-- All fields but `ExtensionCapabilities`.
pub record CapsFields : Type 0 where
  pub name : Text
  pub device_name : Text
  pub version : Text
  pub w3c_version : Text
  pub platform : Text
  pub w3c_platform : Text
  pub w3c_device_name : Text
  pub screen_resolution : Text
  pub skin : Text
  pub vnc : Bool
  pub video : Bool
  pub log : Bool
  pub video_name : Text
  pub video_screen_size : Text
  pub video_frame_rate : ℕ
  pub video_codec : Text
  pub log_name : Text
  pub test_name : Text
  pub time_zone : Text
  pub container_hostname : Text
  pub env : List Text
  pub application_containers : List Text
  pub additional_networks : List Text
  pub hosts_entries : List Text
  pub dns_servers : List Text
  pub labels : Dict Text
  pub session_timeout : Text
  pub s3_key_pattern : Text

-- The capabilities of a client that asks for nothing.
abbrev pub no_caps : CapsFields
no_caps = record {
  name = [];
  device_name = [];
  version = [];
  w3c_version = [];
  platform = [];
  w3c_platform = [];
  w3c_device_name = [];
  screen_resolution = [];
  skin = [];
  vnc = false;
  video = false;
  log = false;
  video_name = [];
  video_screen_size = [];
  video_frame_rate = 0;
  video_codec = [];
  log_name = [];
  test_name = [];
  time_zone = [];
  container_hostname = [];
  env = [];
  application_containers = [];
  additional_networks = [];
  hosts_entries = [];
  dns_servers = [];
  labels = [];
  session_timeout = [];
  s3_key_pattern = [];
}

-- `Caps`: with no `ExtensionCapabilities`, or with those that it points to.
pub data Caps : Type 0 where
  plain : CapsFields → Caps
  extended : CapsFields → Caps → Caps

abbrev pub fields : Caps → CapsFields
fields (plain f) = f
fields (extended f e) = f

abbrev pub with_fields : Caps → CapsFields → Caps
with_fields (plain g) f = plain f
with_fields (extended g e) f = extended f e

-- `x != ""` chooses x
abbrev pub or_else : Text → Text → Text
or_else [] other = other
or_else (c ∷ t) other = c ∷ t

-- The first lines of `ProcessExtensionCapabilities`: the W3C names win.
pub prefer_w3c : CapsFields → CapsFields
prefer_w3c f = record f {
  version = or_else f.w3c_version f.version;
  platform = or_else f.w3c_platform f.platform;
  device_name = or_else f.w3c_device_name f.device_name;
}

-- `merge dst src` stands for `mergo.Merge(dst, src, mergo.WithOverride)`.
pub process_extension_capabilities : (Caps → Caps → Caps) → Caps → Caps
unfolding prefer_w3c
process_extension_capabilities merge (plain f) = plain (prefer_w3c f)
process_extension_capabilities merge (extended f e) = merge (extended (prefer_w3c f) e) e

unfoldable pub browser_name : Caps → Text
browser_name c = or_else (fields c).name (or_else (fields c).device_name (fields c).w3c_device_name)

-- The documented behaviour of a merge with override on the names: a value that the source has wins.
pub record Overrides (merge : Caps → Caps → Caps) : Type 0 where
  pub overrides_name :
      (dst src : Caps) → (fields (merge dst src)).name ≡ or_else (fields src).name (fields dst).name
  pub overrides_version :
      (dst src : Caps)
      → (fields (merge dst src)).version ≡ or_else (fields src).version (fields dst).version
  pub overrides_device_name :
      (dst src : Caps)
      → (fields (merge dst src)).device_name
        ≡ or_else (fields src).device_name (fields dst).device_name

-- The version that is looked up: that of `selenoid:options` if it has one, else the W3C version, else
-- the version of the old protocol.
pub process_extension_capabilities_version :
    (merge : Caps → Caps → Caps)
    → Overrides merge
    → (f : CapsFields) (e : Caps)
    → (fields (process_extension_capabilities merge (extended f e))).version
      ≡ or_else (fields e).version (or_else f.w3c_version f.version)
unfolding process_extension_capabilities
process_extension_capabilities_version merge o f e = o.overrides_version _ e
