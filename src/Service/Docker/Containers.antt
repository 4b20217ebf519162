-- ===== src/Service/Docker/Containers.antt =====
-- Which containers the starter of service/docker.go leaves.
use selenoid.Base.{
  by_test, ◌+◌, ◌≡◌, refl, Bool, true, false, Option, none, some, List, [], ◌∷◌, ◌++◌, Text, total,
  total-append, arith, Option-cases, inl, inr, all, bit, text_eq, Dict,
}
use mathlib.Core.Path.{subst}
use selenoid.Session.Caps.{CapsFields}
use selenoid.Session.Store.{HostPort}
use selenoid.Config.{Browser}
use selenoid.Service.Docker.Settings.{Environment, Answers, Stat}
use selenoid.Service.Docker.Ports.{port_map, host_ports}
use selenoid.Service.Docker.Logs.{LogConfig}
use selenoid.Service.Docker.Requests.{Prepared, prepare, browser_spec, video_spec}
use selenoid.Service.Docker.{
  Call, created, started, copied_logs, remove_container, saves_logs, stop_video_of, cancel,
  connect_all, await, start_video, with_ports, inspected, networked, launch, prepared,
  start_with_cancel, started_service, published,
}
use selenoid.Service.Docker.Counts.{
  creations, removals, remove_counts, count, stop_video_counts, connect_counts, Leaves,
}

module _ (x : Text) (env : Environment) (caps : CapsFields) (b : Browser) (o : Answers)
    (k : o.kills ≡ true) (g : o.gone ≡ false) (n : Bool) where
  service-Leaves :
      (id : Text) (stat : Stat) (hp : HostPort) (video : Option Text) (before : List Call)
      (ports : Option (Option (Dict Text)))
      → total (creations x) before ≡ bit (text_eq id x) + count x video
      → total (removals x) before ≡ 0
      → Leaves x (some id) n (started_service env b id stat hp video before ports)
  unfolding started_service
  service-Leaves id stat hp video before none c r = ((video, c), r)
  service-Leaves id stat hp video before (some ports) c r = (c, r)

  await-Leaves :
      (id : Text) (stat : Stat) (hp : HostPort) (video : Option Text) (before : List Call)
      → total (creations x) before ≡ bit (text_eq id x) + count x video
      → total (removals x) before ≡ 0
      → Leaves x (some id) n (await env caps b o id stat hp video before)
  unfolding await
  await-Leaves id stat hp video before c r =
      let (sc, sr) = stop_video_counts x env o video k g in
      let (rc, rr) = remove_counts x env id in
      by_test (Leaves x (some id) n) o.responds _ _
        (service-Leaves id stat hp video before (published b o stat) c r)
        (inl (
          omega (
            arith,
            c,
            r,
            sc,
            sr,
            rc,
            rr,
            total-append (creations x) before
                (stop_video_of env o video ++ remove_container env id),
            total-append (removals x) before (stop_video_of env o video ++ remove_container env id),
            total-append (creations x) (stop_video_of env o video) (remove_container env id),
            total-append (removals x) (stop_video_of env o video) (remove_container env id),
          )))

  video-Leaves :
      (id : Text) (stat : Stat) (hp : HostPort) (before : List Call) (v : Option Text)
      → total (creations x) before ≡ bit (text_eq id x)
      → total (removals x) before ≡ 0
      → Leaves x (some id) n (start_video env caps b o id stat hp before v)
  unfolding start_video
  video-Leaves id stat hp before none c r =
      let (rc, rr) = remove_counts x env id in
      inl (
        omega (
          arith,
          c,
          r,
          rc,
          rr,
          total-append (creations x) before (remove_container env id),
          total-append (removals x) before (remove_container env id),
        ))
  video-Leaves id stat hp before (some v) c r =
      let (rc, rr) = remove_counts x env id in
      let (vc, vr) = remove_counts x env v in
      let create = created v (video_spec env caps b o id stat) in
      by_test (Leaves x (some id) n) o.starts_video _ _
        (await-Leaves id stat hp (some v) (before ++ (create ∷ started v ∷ []))
          (omega (arith, c, total-append (creations x) before (create ∷ started v ∷ [])))
          (omega (arith, r, total-append (removals x) before (create ∷ started v ∷ []))))
        (inl (
          omega (
            arith,
            c,
            r,
            rc,
            rr,
            vc,
            vr,
            total-append (creations x) before
                (create ∷ (remove_container env id ++ remove_container env v)),
            total-append (removals x) before
                (create ∷ (remove_container env id ++ remove_container env v)),
            total-append (creations x) (remove_container env id) (remove_container env v),
            total-append (removals x) (remove_container env id) (remove_container env v),
          )))

  inspected-Leaves :
      (p : Prepared) (id : Text) (before : List Call) (stat : Option Stat)
      → total (creations x) before ≡ bit (text_eq id x)
      → total (removals x) before ≡ 0
      → Leaves x (some id) n (inspected env caps b o p id before stat)
  unfolding inspected with_ports
  inspected-Leaves p id before none c r =
      let (rc, rr) = remove_counts x env id in
      inl (
        omega (
          arith,
          c,
          r,
          rc,
          rr,
          total-append (creations x) before (remove_container env id),
          total-append (removals x) before (remove_container env id),
        ))
  inspected-Leaves p id before (some stat) c r =
      elim (Option-cases (host_ports env (port_map b.port p.ports) b.port caps stat)) [
        | inl unbound ↦ rw unbound ((none, omega (arith, c)), r)
        | inr (hp, bound) ↦ rw bound (
            by_test (Leaves x (some id) n) caps.video _ _
              (video-Leaves id stat hp before o.create_video c r)
              (await-Leaves id stat hp none before (omega (arith, c)) r))
      ]

networked-Leaves :
    (x : Text) (env : Environment) (caps : CapsFields) (b : Browser) (o : Answers) (p : Prepared)
    (id : Text) (before : List Call) (y : List Call × Bool)
    → o.kills ≡ true
    → o.gone ≡ false
    → total (creations x) before ≡ bit (text_eq id x)
    → total (removals x) before ≡ 0
    → total (creations x) y.0 ≡ 0
    → total (removals x) y.0 ≡ 0
    → Leaves x (some id) y.1 (networked env caps b o p id before y)
unfolding networked
networked-Leaves x env caps b o p id before (calls, false) k g c r xc xr = inr (
  refl,
  omega (
    arith,
    c,
    r,
    xc,
    xr,
    total-append (creations x) before calls,
    total-append (removals x) before calls,
  ),
)
networked-Leaves x env caps b o p id before (calls, true) k g c r xc xr =
    inspected-Leaves x env caps b o k g true p id (before ++ calls) o.inspect
      (omega (arith, c, xc, total-append (creations x) before calls))
      (omega (arith, r, xr, total-append (removals x) before calls))

launch-Leaves :
    (x : Text) (env : Environment) (caps : CapsFields) (b : Browser) (logs : LogConfig)
    (o : Answers) (p : Prepared) (id : Option Text)
    → o.kills ≡ true
    → o.gone ≡ false
    → Leaves x id (all o.connects caps.additional_networks) (launch env caps b logs o p id)
unfolding launch
launch-Leaves x env caps b logs o p none k g = inl refl
launch-Leaves x env caps b logs o p (some id) k g =
    let (c, r, e) = connect_counts x o id caps.additional_networks in
    let (rc, rr) = remove_counts x env id in
    let before = created id (browser_spec env caps b o logs p) ∷ started id ∷ [] in
    by_test (Leaves x (some id) (all o.connects caps.additional_networks)) o.starts _ _
      (subst
        (λ n.
          Leaves x (some id) n
            (networked env caps b o p id before (connect_all o id caps.additional_networks)))
        e
        (networked-Leaves x env caps b o p id before (connect_all o id caps.additional_networks) k g
          (omega arith) refl c r))
      (inl (omega (arith, rc, rr)))

cancel-removals :
    (x : Text) (env : Environment) (caps : CapsFields) (o : Answers) (id : Text)
    (video : Option Text)
    → o.kills ≡ true
    → o.gone ≡ false
    → total (removals x) (cancel env caps o id video) ≡ count x video + bit (text_eq id x)
unfolding cancel
cancel-removals x env caps o id video k g =
    let (sc, sr) = stop_video_counts x env o video k g in
    let (rc, rr) = remove_counts x env id in
    by_test
      (λ logs.
        total (removals x) (stop_video_of env o video ++ (logs ++ remove_container env id))
        ≡ count x video + bit (text_eq id x))
      (saves_logs env caps) (copied_logs id ∷ []) []
      (omega (
        arith,
        sr,
        rr,
        total-append (removals x) (stop_video_of env o video)
            (copied_logs id ∷ remove_container env id),
      ))
      (omega (
        arith,
        sr,
        rr,
        total-append (removals x) (stop_video_of env o video) (remove_container env id),
      ))

prepared-Leaves :
    (x : Text) (env : Environment) (caps : CapsFields) (b : Browser) (logs : LogConfig)
    (o : Answers) (p : Option Prepared)
    → o.kills ≡ true
    → o.gone ≡ false
    → Leaves x o.create (all o.connects caps.additional_networks) (prepared env caps b logs o p)
unfolding prepared
prepared-Leaves x env caps b logs o none k g = inl refl
prepared-Leaves x env caps b logs o (some p) k g = launch-Leaves x env caps b logs o p o.create k g

-- Where the video container can be stopped, the starter of containers removes each container that it has
-- created, once, on every path on which it fails, but for one: the container of the browser stays where it
-- cannot be connected to a network. Where it succeeds, the container of the browser is there, and that of
-- the video if there is one, and `Cancel` removes them. Where a port is not bound, it panics and leaves what
-- it has created.
pub start_with_cancel-Leaves :
    (x : Text) (env : Environment) (caps : CapsFields) (b : Browser) (logs : LogConfig)
    (o : Answers)
    → o.kills ≡ true
    → o.gone ≡ false
    → Leaves x o.create
        (all o.connects caps.additional_networks)
        (start_with_cancel env caps b logs o)
      × ((id : Text) (video : Option Text)
          → total (removals x) (cancel env caps o id video) ≡ bit (text_eq id x) + count x video)
unfolding start_with_cancel
start_with_cancel-Leaves x env caps b logs o k g = (
  prepared-Leaves x env caps b logs o (prepare env caps b o) k g,
  λ id video. omega (arith, cancel-removals x env caps o id video k g),
)
