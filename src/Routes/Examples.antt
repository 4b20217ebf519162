-- ===== src/Routes/Examples.antt =====
-- The routes of one session, and tests of the mux.
use selenoid.Base.{
  ◌≡◌, refl, true, false, none, some, [], ◌∷◌, ◌++◌, codes, text_eq, has_prefix, trim_prefix,
  has_suffix, arith,
}
use selenoid.Paths.{slash, join, clean}
use selenoid.Paths.Elements.{rooted}
use selenoid.Proxy.{Settings, Request, to_app}
use selenoid.Proxy.Run.{delete_request, split_request_path}
use selenoid.Routes.Mux.{serve_mux}
use selenoid.Routes.Links.{vncs, session_paths_routed}
use selenoid.Routes.{
  to_route, to_command, moved, method_not_allowed, vnc, proxy_session, dispatch, root_patterns,
  selenium, selenium_patterns,
}

abbrev settings : Settings
settings = record {
  enable_file_upload = true;
  temp_dir = codes "/tmp";
  localaddr = codes "127.0.0.1:4444";
}

abbrev request : Request
request = record {
  is_delete = false;
  host = codes "selenoid";
  path = codes "/session/s1/aerokube/vnc";
  request_host = codes "selenoid";
  file_header = none;
}

session_paths_routed_example :
    (dispatch true true
        (codes "/wd/hub" ++ rooted (codes "session" ∷ codes "s1" ∷ codes "url" ∷ []))
      ≡ to_command proxy_session (rooted (codes "session" ∷ codes "s1" ∷ codes "url" ∷ [])))
    × (dispatch true false (codes "/wd/hub/session/" ++ codes "s1")
        ≡ to_command proxy_session (delete_request settings (codes "s1")).path)
    × (dispatch true true (rooted (codes "vnc" ∷ codes "s1" ∷ codes "url" ∷ []))
        ≡ to_route vnc (rooted (codes "vnc" ∷ codes "s1" ∷ codes "url" ∷ [])))
    × (dispatch true true (rooted (codes "vnc" ∷ codes "s1" ∷ codes "url" ∷ []) ++ (slash ∷ []))
        ≡ to_route vnc (rooted (codes "vnc" ∷ codes "s1" ∷ codes "url" ∷ []) ++ (slash ∷ [])))
    × (split_request_path (rooted (codes "vnc" ∷ codes "s1" ∷ codes "url" ∷ []))
        ≡ some (codes "s1", slash ∷ join (codes "url" ∷ [])))
    × ((to_app settings (codes "s1") (codes "vnc") (codes "url" ∷ []) request).path
        ≡ rooted (codes "vnc" ∷ codes "s1" ∷ codes "url" ∷ []))
session_paths_routed_example =
    session_paths_routed true true vncs (codes "s1") (codes "url" ∷ []) settings request
      (ground arith, (ground arith, tt))

names_tree : dispatch true true (codes "/vnc") ≡ moved (codes "/vnc/")
unfolding dispatch serve_mux root_patterns selenium selenium_patterns clean text_eq has_suffix
    has_prefix trim_prefix
names_tree = refl

unclean : dispatch true true (codes "/vnc/../vnc/s1") ≡ moved (codes "/vnc/s1")
unfolding dispatch serve_mux root_patterns selenium selenium_patterns clean text_eq has_suffix
    has_prefix trim_prefix
unclean = refl

only_post : dispatch true false (codes "/wd/hub/session") ≡ method_not_allowed
unfolding dispatch serve_mux root_patterns selenium selenium_patterns clean text_eq has_suffix
    has_prefix trim_prefix
only_post = refl
