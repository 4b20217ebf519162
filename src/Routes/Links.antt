-- ===== src/Routes/Links.antt =====
-- The paths of a session that Selenoid itself writes, and where main.go routes them.
use selenoid.Base.{
  ◌≡◌, refl, ◌≢◌, ap, sym, ◌∙◌, Bool, true, false, arith, some, List, [], ◌∷◌, ◌++◌, Text, text_eq,
  has_suffix, has_prefix, trim_prefix, codes, All, ℕ,
}
use mathlib.Core.Path.{subst}
use mathlib.Core.List.{append_assoc}
use selenoid.Paths.{slash, join, clean}
use selenoid.Paths.Clean.{clean-normal}
use selenoid.Paths.Elements.{IsNormal, rooted, no_slashes}
use selenoid.Proxy.{Settings, Request, to_app}
use selenoid.Proxy.Run.{delete_request, split_request_path}
use selenoid.Proxy.Run.Paths.{split_request_path-rooted}
use selenoid.Routes.Mux.{handled, clean_path, best, moves_to_tree}
use selenoid.Routes.Mux.Laws.{clean_path-rooted, clean_path-slashed, serve_mux-clean}
use selenoid.Routes.{
  Route, hub, vnc, download, clipboard, devtools, bidi, wsdriver, to_route, to_command,
  proxy_session, dispatch, root_target, selenium_target, selenium, root_patterns, selenium_patterns,
}

-- The trees of paths that belong to sessions: their names, and their handlers.
pub data Tree : Type 0 where
  vncs downloads clipboards devtoolses bidis wsdrivers : Tree

abbrev pub name_of : Tree → Text
name_of vncs = codes "vnc"
name_of downloads = codes "download"
name_of clipboards = codes "clipboard"
name_of devtoolses = codes "devtools"
name_of bidis = codes "session"
name_of wsdrivers = codes "wsdriver"

abbrev pub route_of : Tree → Route
route_of vncs = vnc
route_of downloads = download
route_of clipboards = clipboard
route_of devtoolses = devtools
route_of bidis = bidi
route_of wsdrivers = wsdriver

abbrev below : Tree → Text → Text
below t p = slash ∷ (name_of t ++ (slash ∷ p))

tree_fits :
    (up : Bool) (t : Tree) (c : ℕ) (p : Text)
    → (best (root_patterns up) (below t (c ∷ p)) ≡ some (below t [], route_of t))
      × (moves_to_tree (root_patterns up) (below t (c ∷ p)) ≡ false)
unfolding root_patterns best moves_to_tree text_eq has_suffix has_prefix
tree_fits true vncs c p = (refl, refl)
tree_fits false vncs c p = (refl, refl)
tree_fits true downloads c p = (refl, refl)
tree_fits false downloads c p = (refl, refl)
tree_fits true clipboards c p = (refl, refl)
tree_fits false clipboards c p = (refl, refl)
tree_fits true devtoolses c p = (refl, refl)
tree_fits false devtoolses c p = (refl, refl)
tree_fits true bidis c p = (refl, refl)
tree_fits false bidis c p = (refl, refl)
tree_fits true wsdrivers c p = (refl, refl)
tree_fits false wsdrivers c p = (refl, refl)

trees_have_routes :
    (t : Tree) (is_post : Bool) (p : Text)
    → root_target is_post p (handled (route_of t)) ≡ to_route (route_of t) p
unfolding root_target
trees_have_routes vncs is_post p = refl
trees_have_routes downloads is_post p = refl
trees_have_routes clipboards is_post p = refl
trees_have_routes devtoolses is_post p = refl
trees_have_routes bidis is_post p = refl
trees_have_routes wsdrivers is_post p = refl

-- A clean path in a tree comes to the handler of the tree.
tree_routed :
    (up is_post : Bool) (t : Tree) (p : Text)
    → (c : ℕ) × (l : Text) × (p ≡ c ∷ l)
    → clean_path (below t p) ≡ below t p
    → dispatch up is_post (below t p) ≡ to_route (route_of t) (below t p)
unfolding dispatch
tree_routed up is_post t p (c, l, e) clean =
    ap (root_target is_post (below t p)) (
      serve_mux-clean (root_patterns up) (below t p) (below t []) (route_of t) clean
        (subst (λ q. moves_to_tree (root_patterns up) (below t q) ≡ false) (sym e)
          (tree_fits up t c l).1)
        (subst (λ q. best (root_patterns up) (below t q) ≡ some (below t [], route_of t)) (sym e)
          (tree_fits up t c l).0))
    ∙ trees_have_routes t is_post (below t p)

join_cons : (f : Text) (fs : List Text) → f ≢ [] → (c : ℕ) × (l : Text) × (join (f ∷ fs) ≡ c ∷ l)
unfolding join
join_cons [] fs ne = absurd (ne refl)
join_cons (c ∷ f) [] ne = (c, f, refl)
join_cons (c ∷ f) (g ∷ fs) ne = (c, f ++ (slash ∷ join (g ∷ fs)), refl)

name-IsNormal : (t : Tree) → IsNormal (name_of t)
name-IsNormal vncs = ground arith
name-IsNormal _ = ground arith

-- The paths of a session in its trees, as Selenoid writes them: in the capabilities with a slash at the
-- end, and where the Director rewrites `/session/<id>/aerokube/<tree>/…`. All come to the handler of the
-- tree, and the handler finds the session in them.
tree_paths_routed :
    (up is_post : Bool) (t : Tree) (sid : Text) (more : List Text) (c : Settings) (q : Request)
    → All IsNormal (sid ∷ more)
    → (dispatch up is_post (rooted (name_of t ∷ sid ∷ more))
        ≡ to_route (route_of t) (rooted (name_of t ∷ sid ∷ more)))
      × (dispatch up is_post (rooted (name_of t ∷ sid ∷ more) ++ (slash ∷ []))
          ≡ to_route (route_of t) (rooted (name_of t ∷ sid ∷ more) ++ (slash ∷ [])))
      × (split_request_path (rooted (name_of t ∷ sid ∷ more)) ≡ some (sid, slash ∷ join more))
      × ((to_app c sid (name_of t) more q).path ≡ rooted (name_of t ∷ sid ∷ more))
unfolding join
tree_paths_routed up is_post t sid more c q h =
    let whole : All IsNormal (name_of t ∷ sid ∷ more) = (name-IsNormal t, h) in
    let (x, l, e) = join_cons sid more h.0.some_text in
    let shape : rooted (name_of t ∷ sid ∷ more) ++ (slash ∷ [])
        ≡ below t (join (sid ∷ more) ++ (slash ∷ [])) =
      ap (λ l. slash ∷ l) (append_assoc (name_of t) (slash ∷ join (sid ∷ more)) (slash ∷ [])) in
    (
      tree_routed up is_post t (join (sid ∷ more)) (x, l, e)
          (clean_path-rooted (name_of t) (sid ∷ more) whole),
      subst (λ p. dispatch up is_post p ≡ to_route (route_of t) p) (sym shape)
          (tree_routed up is_post t (join (sid ∷ more) ++ (slash ∷ []))
            (x, l ++ (slash ∷ []), ap (λ l. l ++ (slash ∷ [])) e)
            (subst (λ p. clean_path p ≡ p) shape
              (clean_path-slashed (name_of t) (sid ∷ more) whole))),
      split_request_path-rooted (name_of t) sid more (no_slashes (name_of t ∷ sid ∷ more) whole),
      unfold to_app in clean-normal (name_of t) (sid ∷ more) whole,
    )

session_fits :
    (c : ℕ) (p : Text)
    → (best selenium_patterns (below bidis (c ∷ p)) ≡ some (below bidis [], proxy_session))
      × (moves_to_tree selenium_patterns (below bidis (c ∷ p)) ≡ false)
unfolding selenium_patterns best moves_to_tree text_eq has_suffix has_prefix
session_fits c p = (refl, refl)

hub_fits :
    (up : Bool) (p : Text)
    → (best (root_patterns up) (codes "/wd/hub" ++ below bidis p) ≡ some (codes "/wd/hub/", hub))
      × (moves_to_tree (root_patterns up) (codes "/wd/hub" ++ below bidis p) ≡ false)
unfolding root_patterns best moves_to_tree text_eq has_suffix has_prefix
hub_fits true p = (refl, refl)
hub_fits false p = (refl, refl)

wd-IsNormal : IsNormal (codes "wd") × IsNormal (codes "hub")
wd-IsNormal = (ground arith, ground arith)

proxied :
    (is_post : Bool) (p : Text)
    → selenium_target is_post p (handled proxy_session) ≡ to_command proxy_session p
unfolding selenium_target
proxied true p = refl
proxied false p = refl

command_routed :
    (up is_post : Bool) (sid : Text) (more : List Text)
    → All IsNormal (sid ∷ more)
    → dispatch up is_post (codes "/wd/hub" ++ rooted (codes "session" ∷ sid ∷ more))
      ≡ to_command proxy_session (rooted (codes "session" ∷ sid ∷ more))
unfolding dispatch root_target selenium join trim_prefix has_prefix
command_routed up is_post sid more h =
    let p = below bidis (join (sid ∷ more)) in
    let inner : All IsNormal (codes "session" ∷ sid ∷ more) = (name-IsNormal bidis, h) in
    let outer : All IsNormal (codes "wd" ∷ codes "hub" ∷ codes "session" ∷ sid ∷ more) =
      (wd-IsNormal.0, (wd-IsNormal.1, inner)) in
    let (x, l, e) = join_cons sid more h.0.some_text in
    let fits =
      subst
        (λ q.
          (best selenium_patterns (below bidis q) ≡ some (below bidis [], proxy_session))
          × (moves_to_tree selenium_patterns (below bidis q) ≡ false))
        (sym e) (session_fits x l) in
    ap (root_target is_post (codes "/wd/hub" ++ p)) (
      serve_mux-clean (root_patterns up) (codes "/wd/hub" ++ p) (codes "/wd/hub/") hub
        (clean_path-rooted (codes "wd") (codes "hub" ∷ codes "session" ∷ sid ∷ more) outer)
        (hub_fits up (join (sid ∷ more))).1 (hub_fits up (join (sid ∷ more))).0)
    ∙ ap (selenium_target is_post p) (
        serve_mux-clean selenium_patterns p (below bidis []) proxy_session
          (clean_path-rooted (codes "session") (sid ∷ more) inner) fits.1 fits.0)
    ∙ proxied is_post p

-- The commands of a session come to `proxy` without `/wd/hub`, whatever their method; and the DELETE that
-- a timer sends comes there as the request that the model of the timers begins.
commands_routed :
    (up is_post : Bool) (sid : Text) (more : List Text) (c : Settings)
    → All IsNormal (sid ∷ more)
    → (dispatch up is_post (codes "/wd/hub" ++ rooted (codes "session" ∷ sid ∷ more))
        ≡ to_command proxy_session (rooted (codes "session" ∷ sid ∷ more)))
      × (dispatch up false (codes "/wd/hub/session/" ++ sid)
          ≡ to_command proxy_session (delete_request c sid).path)
unfolding delete_request join trim_prefix has_prefix
commands_routed up is_post sid more c h =
    (command_routed up is_post sid more h, command_routed up false sid [] (h.0, tt))

-- The theorem about both kinds of paths.
pub session_paths_routed :
    (up is_post : Bool) (t : Tree) (sid : Text) (more : List Text) (c : Settings) (q : Request)
    → All IsNormal (sid ∷ more)
    → (dispatch up is_post (codes "/wd/hub" ++ rooted (codes "session" ∷ sid ∷ more))
        ≡ to_command proxy_session (rooted (codes "session" ∷ sid ∷ more)))
      × (dispatch up false (codes "/wd/hub/session/" ++ sid)
          ≡ to_command proxy_session (delete_request c sid).path)
      × (dispatch up is_post (rooted (name_of t ∷ sid ∷ more))
          ≡ to_route (route_of t) (rooted (name_of t ∷ sid ∷ more)))
      × (dispatch up is_post (rooted (name_of t ∷ sid ∷ more) ++ (slash ∷ []))
          ≡ to_route (route_of t) (rooted (name_of t ∷ sid ∷ more) ++ (slash ∷ [])))
      × (split_request_path (rooted (name_of t ∷ sid ∷ more)) ≡ some (sid, slash ∷ join more))
      × ((to_app c sid (name_of t) more q).path ≡ rooted (name_of t ∷ sid ∷ more))
session_paths_routed up is_post t sid more c q h =
    let (command, timer) = commands_routed up is_post sid more c h in
    let (tree, slashed, found, rewritten) = tree_paths_routed up is_post t sid more c q h in
    (command, timer, tree, slashed, found, rewritten)
