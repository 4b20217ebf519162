-- ===== src/Proxy/Run/Expiry.antt =====
-- How sessions of selenoid.go end: by a DELETE of the client, or of their own timer.
use selenoid.Base.{◌≡◌, sym, ap, true, some, List, [], ◌∷◌, Text, length}
use mathlib.Core.Path.{subst}
use selenoid.Paths.{split}
use selenoid.Session.Store.{Ref, Session, get}
use selenoid.Proxy.{Settings, Request}
use selenoid.Proxy.Run.{System, Event, proxying, proxy, move, step, run, start, begin}
use selenoid.Proxy.Run.Invariant.{run-Watched}
use selenoid.Proxy.Run.Deletion.{Ended, end-Ended, find_delete, move_last, run_two}

-- The DELETE of a session that runs ends it, when nothing comes between its look-up and the rest, and
-- whatever happened before. Its path has exactly three fragments.
pub delete_ends_session :
    (c : Settings) (es : List Event) (s : System)
    → run c start es ≡ some s
    → (q : Request) (a b id : Text) (r : Ref) → q.is_delete ≡ true
    → split q.path ≡ a ∷ b ∷ id ∷ []
    → get s.sessions id ≡ some r
    → (v : System) × (run c s (proxy q ∷ move (length s.requests) ∷ []) ≡ some v)
      × Ended s.server id r v.server
delete_ends_session c es s e q a b id r delete path there =
    let (n, unclosed) = (run-Watched c es s e).alive id r there in
    let (v, taken, shape) = move_last c s q id r n.session delete n.timed.stored in
    let found = find_delete s.sessions q a b id r path there in
    let asked : step c s (proxy q) ≡ some (begin s (proxying q id [] r)) =
      unfold step in ap (λ pc. some (begin s pc)) found in
    (
      v,
      run_two c s _ v (proxy q) _ asked taken,
      subst (Ended s.server id r) (sym shape) (end-Ended c id r n.session s.server n.timed.stored),
    )
