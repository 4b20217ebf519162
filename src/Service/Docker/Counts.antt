-- ===== src/Service/Docker/Counts.antt =====
-- Which containers service/docker.go creates and removes.
use selenoid.Base.{
  ℕ, ◌+◌, ◌≡◌, refl, Bool, true, false, Option, none, some, List, [], ◌∷◌, Text, total, arith,
  Bool-cases, inl, inr, ◌⊎◌, all, bit, text_eq,
}
use selenoid.Service.Docker.Settings.{Environment, Answers}
use selenoid.Service.Docker.{
  Call, created, removed, Launch, failed, panicked, running, remove_container, stop_video,
  stop_video_of, connect_all,
}

-- The calls that create or remove the container `x`.
abbrev pub creations : Text → Call → ℕ
creations x (created id spec) = bit (text_eq id x)
creations x _ = 0

abbrev pub removals : Text → Call → ℕ
removals x (removed id) = bit (text_eq id x)
removals x _ = 0

pub remove_counts :
    (x : Text) (env : Environment) (id : Text)
    → (total (creations x) (remove_container env id) ≡ 0)
      × (total (removals x) (remove_container env id) ≡ bit (text_eq id x))
unfolding remove_container
remove_counts x env id = elim (Bool-cases env.graceful_shutdown) [
  | inl graceful ↦ rw graceful (omega arith, omega arith)
  | inr quick ↦ rw quick (omega arith, omega arith)
]

abbrev pub count : Text → Option Text → ℕ
count x none = 0
count x (some v) = bit (text_eq v x)

-- The video container is removed once it was killed, if it is still there.
pub stop_video_counts :
    (x : Text) (env : Environment) (o : Answers) (video : Option Text)
    → o.kills ≡ true
    → o.gone ≡ false
    → (total (creations x) (stop_video_of env o video) ≡ 0)
      × (total (removals x) (stop_video_of env o video) ≡ count x video)
unfolding stop_video_of stop_video
stop_video_counts x env o none k g = (refl, refl)
stop_video_counts x env o (some v) k g =
    let (c, r) = remove_counts x env v in rw (k, g) (omega (arith, c), omega (arith, r))

pub connect_counts :
    (x : Text) (o : Answers) (id : Text) (ns : List Text)
    → (total (creations x) (connect_all o id ns).0 ≡ 0)
      × (total (removals x) (connect_all o id ns).0 ≡ 0)
      × ((connect_all o id ns).1 ≡ all o.connects ns)
unfolding connect_all
connect_counts x o id [] = (refl, refl, refl)
connect_counts x o id (n ∷ ns) =
    let (c, r, e) = connect_counts x o id ns in
    elim (Bool-cases (o.connects n)) [
      | inl good ↦ rw good (omega (arith, c), omega (arith, r), e)
      | inr bad ↦ rw bad (refl, refl, refl)
    ]

-- What is left: nothing, where the start fails, but for the container that cannot be connected to a network;
-- the containers of the session, where it succeeds; and what was created, where it panics.
abbrev pub Leaves : Text → Option Text → Bool → List Call × Launch → Type 0
Leaves x browser networks (calls, failed) =
    (total (creations x) calls ≡ total (removals x) calls)
    ⊎ ((networks ≡ false)
        × (total (creations x) calls ≡ total (removals x) calls + count x browser))
Leaves x browser networks (calls, panicked) =
    ((video : Option Text) × (total (creations x) calls ≡ count x browser + count x video))
    × (total (removals x) calls ≡ 0)
Leaves x browser networks (calls, running u hp id ip origin ports video) =
    (total (creations x) calls ≡ bit (text_eq id x) + count x video)
    × (total (removals x) calls ≡ 0)
