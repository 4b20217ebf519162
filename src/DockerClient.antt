-- ===== src/DockerClient.antt =====
-- main.go: `createCompatibleDockerClient`, `parseVersion` and `isDockerAPIVersionCorrect`, which look for the
-- version of the API that the Docker daemon speaks.
pub mod Negotiation
mod Examples
use selenoid.Base.{
  ℕ, zero, suc, ◌+◌, ◌-◌, ◌*◌, Bool, true, false, ◌&&◌, Option, none, some, List, [], ◌∷◌, ◌++◌,
  map, Text, text_eq, codes, decimal, leb, if◌then◌else◌, ◌==◌,
}
use mathlib.Core.List.{flatten}

-- `strings.Split(ver, ".")`
start_piece : ℕ → List Text → List Text
start_piece c [] = (c ∷ []) ∷ []
start_piece c (p ∷ ps) = (c ∷ p) ∷ ps

pieces : Text → List Text
unfolding start_piece
pieces [] = [] ∷ []
pieces (c ∷ s) = let rest = pieces s in if c == b'.' then [] ∷ rest else start_piece c rest

-- `strconv.Atoi` on a text without a sign, of a number that fits an `int`.
digits_from : ℕ → Text → Option ℕ
digits_from n [] = some n
digits_from n (c ∷ s) =
    let rest = digits_from (n * 10 + (c - b'0')) s in
    if leb b'0' c && leb c b'9' then rest else none

pub atoi : Text → Option ℕ
unfolding digits_from
atoi [] = none
atoi (c ∷ s) = digits_from 0 (c ∷ s)

-- An error in either number gives 0.0; a version without a point panics, where its number is right, which
-- is written `none`.
minor_of : ℕ → Option ℕ → ℕ × ℕ
minor_of major none = (0, 0)
minor_of major (some minor) = (major, minor)

major_of : Option ℕ → List Text → Option (ℕ × ℕ)
unfolding minor_of atoi
major_of none ps = some (0, 0)
major_of (some major) [] = none
major_of (some major) (p ∷ ps) = some (minor_of major (atoi p))

version_of : List Text → Option (ℕ × ℕ)
unfolding major_of atoi
version_of [] = none
version_of (p ∷ ps) = major_of (atoi p) ps

-- `parseVersion`
unfoldable pub parse_version : Text → Option (ℕ × ℕ)
unfolding version_of pieces
parse_version ver = version_of (pieces ver)

-- `for n := hi; n >= lo; n--`, where `lo` is above 0.
unfoldable pub countdown : ℕ → ℕ → List ℕ
countdown zero lo = if leb lo 0 then 0 ∷ [] else []
countdown (suc hi) lo = let rest = countdown hi lo in if leb lo (suc hi) then suc hi ∷ rest else []

-- `fmt.Sprintf("%d.%d", majorVersion, minorVersion)`
version_text : ℕ → ℕ → Text
version_text major minor = decimal major ++ (b'.' ∷ decimal minor)

majors : List ℕ → List ℕ → List Text
unfolding version_text
majors [] minors = []
majors (major ∷ ms) minors = map (version_text major) minors ++ majors ms minors

-- The versions in the order in which they are tried.
unfoldable pub candidates : ℕ × ℕ → ℕ × ℕ → List Text
unfolding majors
candidates (max_major, max_minor) (min_major, min_minor) =
    majors (countdown max_major min_major) (countdown max_minor min_minor)

-- The library of Docker: `new_client` says whether `NewClientWithOpts(FromEnv)` succeeds with this version in
-- `DOCKER_API_VERSION`, `server_version` what `ServerVersion` answers a client, `client_version` what the
-- client says of itself, and `default_version` is `api.DefaultVersion`.
pub record Library : Type 0 where
  pub new_client : Text → Bool
  pub server_version : Text → Option Text
  pub client_version : Text → Text
  pub default_version : Text

pub data Action : Type 0 where
  opened closed : Text → Action

same_version : Text → Option Text → Bool
same_version version none = false
same_version version (some answered) = text_eq answered version

-- `isDockerAPIVersionCorrect`
unfoldable pub is_correct : Library → Text → Bool
unfolding same_version
is_correct l v = same_version (l.client_version v) (l.server_version v)

-- The client that is returned, by its version, or an error.
abbrev pub Made : Type 0
Made = List Action × Option Text

-- The last line: a client with what is in `DOCKER_API_VERSION` by then.
unfoldable pub make : Library → Text → Made
make l env = if l.new_client env then (opened env ∷ [], some env) else ([], none)

after_attempt : Text → Made → Made
after_attempt v (actions, client) = (opened v ∷ closed v ∷ actions, client)

-- The loops; `env` is the value of `DOCKER_API_VERSION`.
unfoldable pub try_all : Library → List Text → Text → Made
unfolding after_attempt
try_all l [] env = make l env
try_all l (v ∷ vs) env =
    let rest = try_all l vs v in
    if l.new_client v
    then if is_correct l v then (opened v ∷ [], some v) else after_attempt v rest
    else ([], none)

by_versions : Library → Option (ℕ × ℕ) → Option (ℕ × ℕ) → Option Made
unfolding candidates
by_versions l (some max) (some min) = some (try_all l (candidates max min) [])
by_versions l _ _ = none

-- `createCompatibleDockerClient`; `none` is a panic.
unfoldable pub create_compatible_docker_client : Library → Text → Option Made
unfolding by_versions
create_compatible_docker_client l env =
    if text_eq env []
    then by_versions l (parse_version l.default_version) (parse_version (codes "1.24"))
    else some (make l env)
