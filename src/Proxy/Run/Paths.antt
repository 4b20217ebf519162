-- ===== src/Proxy/Run/Paths.antt =====
-- The paths that selenoid.go takes sessions from.
use selenoid.Base.{◌≡◌, ap, ◌∙◌, some, List, [], ◌∷◌, ◌++◌, Text, All}
use selenoid.Paths.{slash, split, join}
use selenoid.Paths.Elements.{split-join}
use selenoid.Paths.Laws.{IsFragment, split_three, join-split}
use selenoid.Proxy.Run.{split_request_path, request_parts}

-- `splitRequestPath` takes `/<route>/<session>/<rest>` apart into the session and `/<rest>`, whatever
-- slashes the rest has.
pub split_request_path_parts :
    (route sid rest : Text)
    → IsFragment route
    → IsFragment sid
    → split_request_path (slash ∷ (route ++ (slash ∷ (sid ++ (slash ∷ rest)))))
      ≡ some (sid, slash ∷ rest)
unfolding split_request_path request_parts
split_request_path_parts route sid rest hr hs =
    ap request_parts (split_three route sid rest hr hs)
    ∙ ap (λ t. some (sid, slash ∷ t)) (join-split rest)

-- The same for a path of fragments, where none may follow the session.
pub split_request_path-rooted :
    (route sid : Text) (more : List Text)
    → All IsFragment (route ∷ sid ∷ more)
    → split_request_path (slash ∷ join (route ∷ sid ∷ more)) ≡ some (sid, slash ∷ join more)
unfolding split_request_path request_parts split
split_request_path-rooted route sid more h =
    ap (λ l. request_parts ([] ∷ l)) (split-join route (sid ∷ more) h.0 h.1)
