-- ===== src/Start/Inside.antt =====
-- What the program that main.go has set up removes for its clients.
use selenoid.Base.{◌≡◌, List, Text}
use selenoid.Paths.Elements.{rooted}
use selenoid.Files.Inside.{Below}
use selenoid.Start.Ready.{Ready}

-- The file is this directory or lies in it.
abbrev pub IsIn : Text → Text → Type 0
IsIn dir f = (ds : List Text) × (dir ≡ rooted ds) × Below ds f
