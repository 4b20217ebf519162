-- ===== src/Session/Store.antt =====
-- session/session.go, `Container`, `Session`, `HostPort` and `Map`.
use selenoid.Base.{
  ℕ, Bool, false, Option, none, some, [], Text, Dict, lookup, insert, delete, length, ◌==◌,
}
use selenoid.Session.Caps.{Caps}
use selenoid.Int.{ℤ}

pub record Container : Type 0 where
  pub id : Text
  pub ip_address : Text
  pub ports : Dict Text

pub record HostPort : Type 0 where
  pub selenium : Text
  pub fileserver : Text
  pub clipboard : Text
  pub vnc : Text
  pub devtools : Text
  pub bidi : Text

-- The parts of a `url.URL` that the code sets: the scheme is always `http`.
pub record Url : Type 0 where
  pub host : Text
  pub path : Text

-- `Session` but for `Cancel`, `Started` and `Lock`: whoever calls `Cancel` names the session, and the
-- timeout channel is the number of its timer.
pub record Session : Type 0 where
  pub quota : Text
  pub caps : Caps
  pub url : Url
  pub container : Option Container
  pub host_port : HostPort
  pub origin : Text
  pub timeout : ℤ
  pub timeout_ch : ℕ

-- A pointer to a session is its number: sessions are allocated one after the other. The map holds
-- pointers.
abbrev pub Ref : Type 0
Ref = ℕ

abbrev pub SessionMap : Type 0
SessionMap = Dict Ref

unfoldable pub new_map : SessionMap
new_map = []

-- `m.m[k] == v`: a missing key reads as nil, which is no session's pointer.
pub ensure : SessionMap → Text → Ref → Bool
ensure m k v = elim (lookup k m) [ none ↦ false | some r ↦ r == v ]

unfoldable pub get : SessionMap → Text → Option Ref
get m k = lookup k m

unfoldable pub put : SessionMap → Text → Ref → SessionMap
put m k v = insert k v m

unfoldable pub remove : SessionMap → Text → SessionMap
remove m k = delete k m

unfoldable pub len : SessionMap → ℕ
len m = length m
