-- ===== src/Routes.antt =====
-- main.go: `handler`, `selenium` and `post`, which route the requests, with the `http.ServeMux` of the
-- standard library as far as these patterns use it: no methods, no hosts, no wildcards.
--
-- The paths have no escaped bytes, and the method is not CONNECT, for which a mux cleans no path.
pub mod Mux
pub mod Clean
pub mod Links
mod Examples
use selenoid.Base.{
  ℕ, Bool, true, false, Option, none, some, List, [], ◌∷◌, ◌++◌, Text, codes, trim_prefix,
  if◌then◌else◌,
}
use selenoid.Routes.Mux.{Routed, handled, redirected, not_found, serve_mux}

-- The handlers of `handler`.
pub data Route : Type 0 where
  hub error_page status_page ping vnc logs video download clipboard devtools bidi wsdriver file
        welcome :
      Route

file_route : Bool → List (Text × Route)
file_route true = (codes "/file", file) ∷ []
file_route false = []

pub root_patterns : Bool → List (Text × Route)
unfolding file_route
root_patterns enable_file_upload =
    (codes "/wd/hub/", hub)
    ∷ (codes "/error", error_page)
    ∷ (codes "/status", status_page)
    ∷ (codes "/ping", ping)
    ∷ (codes "/vnc/", vnc)
    ∷ (codes "/logs/", logs)
    ∷ (codes "/video/", video)
    ∷ (codes "/download/", download)
    ∷ (codes "/clipboard/", clipboard)
    ∷ (codes "/devtools/", devtools)
    ∷ (codes "/session/", bidi)
    ∷ (codes "/wsdriver/", wsdriver)
    ∷ (file_route enable_file_upload ++ ((codes "/", welcome) ∷ []))

-- The handlers of `selenium`.
pub data Command : Type 0 where
  create_session proxy_session hub_status hub_welcome : Command

pub selenium_patterns : List (Text × Command)
selenium_patterns =
    (codes "/session", create_session)
    ∷ (codes "/session/", proxy_session)
    ∷ (codes "/status", hub_status)
    ∷ (codes "/", hub_welcome)
    ∷ []

-- What a request comes to, with the path that the handler sees.
pub data Target : Type 0 where
  to_route : Route → Text → Target
  to_command : Command → Text → Target
  method_not_allowed : Target
  moved : Text → Target
  nothing : Target

-- `post`: only a POST creates a session.
post : Bool → Command → Text → Target
post true create_session p = to_command create_session p
post false create_session p = method_not_allowed
post is_post c p = to_command c p

pub selenium_target : Bool → Text → Routed Command → Target
unfolding post
selenium_target is_post p (handled c) = post is_post c p
selenium_target is_post p (redirected q) = moved q
selenium_target is_post p not_found = nothing

-- `selenium`, on a path without `/wd/hub`
unfoldable pub selenium : Bool → Text → Target
unfolding selenium_target
selenium is_post p = selenium_target is_post p (serve_mux selenium_patterns p)

pub root_target : Bool → Text → Routed Route → Target
root_target is_post p (handled hub) = selenium is_post (trim_prefix p (codes "/wd/hub"))
root_target is_post p (handled r) = to_route r p
root_target is_post p (redirected q) = moved q
root_target is_post p not_found = nothing

-- `handler`
pub dispatch : (enable_file_upload is_post : Bool) → Text → Target
unfolding root_target
dispatch enable_file_upload is_post p =
    root_target is_post p (serve_mux (root_patterns enable_file_upload) p)
