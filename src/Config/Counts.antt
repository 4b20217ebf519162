-- ===== src/Config/Counts.antt =====
-- What the numbers of the state of config/config.go count.
use selenoid.Base.{ℕ, Option, none, some, Dict, total}
use selenoid.Session.Store.{Session}
use selenoid.Config.{Config, Quota, Version, Browsers}

module _ {ℓ} {V : Type ℓ} (w : V → ℕ) where
  abbrev pub sum : Dict V → ℕ
  sum m = total (λ e. w e.1) m

  weight : Option V → ℕ
  weight none = 0
  weight (some v) = w v

-- The sessions that a quota, a version and the browsers report.
abbrev pub in_quota : Quota → ℕ
in_quota = sum (λ s. s.count)

abbrev pub in_version : Version → ℕ
in_version = sum in_quota

abbrev pub in_browsers : Browsers → ℕ
in_browsers = sum in_version
