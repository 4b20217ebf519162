-- ===== src/Routes/Clean.antt =====
-- The handlers of `handler` see clean paths only.
use selenoid.Base.{◌≡◌, refl, sym, ◌∙◌, Bool, true, false, Text, arith, codes, ◌≢◌, trim_prefix}
use mathlib.Core.Path.{subst}
use selenoid.Paths.Clean.{NoUp}
use selenoid.Routes.Mux.{Routed, handled, redirected, not_found, serve_mux}
use selenoid.Routes.Mux.Laws.{handled_clean, clean_path-NoUp}
use selenoid.Routes.{
  Route, hub, Command, create_session, proxy_session, hub_status, hub_welcome, Target, to_route,
  to_command, method_not_allowed, moved, nothing, post, selenium_target, selenium, root_target,
  root_patterns, dispatch,
}

is_route : Target → Bool
is_route (to_route r p) = true
is_route _ = false

commands_only :
    (is_post : Bool) (p : Text) (x : Routed Command)
    → is_route (selenium_target is_post p x) ≡ false
unfolding selenium_target post is_route
commands_only true p (handled create_session) = refl
commands_only true p (handled proxy_session) = refl
commands_only true p (handled hub_status) = refl
commands_only true p (handled hub_welcome) = refl
commands_only false p (handled create_session) = refl
commands_only false p (handled proxy_session) = refl
commands_only false p (handled hub_status) = refl
commands_only false p (handled hub_welcome) = refl
commands_only is_post p (redirected q) = refl
commands_only is_post p not_found = refl

not_hub : (t : Target) (r : Route) (q : Text) → is_route t ≡ false → t ≢ to_route r q
unfolding is_route
not_hub (to_route r p) s q h e = cc
not_hub (to_command c p) s q h e = cc
not_hub method_not_allowed s q h e = cc
not_hub (moved p) s q h e = cc
not_hub nothing s q h e = cc

routed_here :
    (is_post : Bool) (p : Text) (x : Routed Route) (r : Route) (q : Text)
    → root_target is_post p x ≡ to_route r q
    → (s : Route) × (x ≡ handled s) × (q ≡ p)
unfolding root_target selenium
routed_here is_post p (handled hub) r q e = absurd (
    not_hub (root_target is_post p (handled hub)) r q
      (commands_only is_post (trim_prefix p (codes "/wd/hub")) _) e)
routed_here is_post p (handled s) r q e = (s, refl, ground arith)
routed_here is_post p (redirected s) r q e = absurd (cc)
routed_here is_post p not_found r q e = absurd (cc)

-- A handler sees the path of the request, and no `..` in it.
pub routed-NoUp :
    (up is_post : Bool) (p : Text) (r : Route) (q : Text)
    → dispatch up is_post p ≡ to_route r q
    → (q ≡ p) × NoUp q
unfolding dispatch
routed-NoUp up is_post p r q e =
    let (s, found, same) = routed_here is_post p (serve_mux (root_patterns up) p) r q e in
    (same, subst NoUp (handled_clean (root_patterns up) p s found ∙ sym same) (clean_path-NoUp p))
