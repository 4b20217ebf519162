-- ===== src/Config/Find.antt =====
-- What `Find` of config/config.go finds.
use selenoid.Base.{
  ℕ, ◌≡◌, Bool, true, false, Option, none, some, Text, has_prefix, Dict, ◌⊎◌, All, get_elem?,
}
use selenoid.Config.{Browser, Config}

-- A version with the prefix is found, or there is none.
abbrev pub Searched : Text → Dict Browser → Option Browser × Text × Bool → Type 0
Searched version vs found =
    ((i : ℕ) × (v : Text) × (b : Browser) × (get_elem? vs i ≡ some (v, b))
      × (has_prefix v version ≡ true)
      × (found ≡ (some b, v, true)))
    ⊎ (All (λ e. has_prefix e.0 version ≡ false) vs × (found ≡ (none, version, false)))
