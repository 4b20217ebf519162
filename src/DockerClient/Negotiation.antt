-- ===== src/DockerClient/Negotiation.antt =====
-- Which client of Docker main.go ends with.
use selenoid.Base.{
  ℕ, ◌+◌, ◌≡◌, Bool, none, some, List, [], ◌∷◌, Text, ◌⊎◌, total, bit, is_some, if◌then◌else◌,
}
use selenoid.DockerClient.{Action, opened, closed, Made}

abbrev pub opens : Action → ℕ
opens (opened v) = 1
opens (closed v) = 0

abbrev pub closes : Action → ℕ
closes (opened v) = 0
closes (closed v) = 1

-- The first version that the daemon speaks, or the one that was tried last.
abbrev pub first_or_last : (Text → Bool) → List Text → Text → Text
first_or_last correct [] last = last
first_or_last correct (v ∷ vs) last = if correct v then v else first_or_last correct vs v

-- What is done, and which client is left: an error, or one of this version, which alone stays open.
abbrev pub Keeps : Text → Made → Type 0
Keeps version (actions, client) =
    (total opens actions ≡ total closes actions + bit (is_some client))
    × (client ≡ none ⊎ client ≡ some version)
