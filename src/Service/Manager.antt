-- ===== src/Service/Manager.antt =====
-- service/service.go: `DefaultManager.Find`.
use selenoid.Base.{Bool, true, Option, none, some, Text, if◌then◌else◌}
use selenoid.Session.Caps.{Caps, fields, browser_name}
use selenoid.Config.{Browser, Config, Image, image, command, other, find}

-- The starters, with the browser that was found.
pub data Starter : Type 0 where
  docker : Browser → Caps → Starter
  driver : Browser → Caps → Starter

by_image : Bool → Caps → Browser → Image → Option Starter
by_image has_client caps b (image name) = if has_client then some (docker b caps) else none
by_image has_client caps b (command words) = some (driver b caps)
by_image has_client caps b other = none

by_browser : Bool → Caps → Option Browser × Text × Bool → Option Starter
unfolding by_image
by_browser has_client caps (some b, version, true) = by_image has_client caps b b.image
by_browser has_client caps _ = none

-- `has_client`: there is a client of Docker.
pub manager_find : {Logs Time : Type 0} → Config Logs Time → Bool → Caps → Option Starter
unfolding by_browser
manager_find c has_client caps =
    by_browser has_client caps (find c (browser_name caps) (fields caps).version)
