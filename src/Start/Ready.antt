-- ===== src/Start/Ready.antt =====
-- What main.go has set up where it goes on to serve.
use selenoid.Base.{
  ◌≡◌, Bool, true, false, not, Option, none, some, List, [], ◌∷◌, Text, text_eq, All, ◌⊎◌,
}
use selenoid.Paths.{slash}
use selenoid.Paths.Elements.{IsNormal, rooted}
use selenoid.Events
use selenoid.Start.{Flags, Machine, Program}

-- `os.Getwd` answers an error or a rooted path.
abbrev pub IsRooted : Option Text → Type 0
IsRooted wd = (wd ≡ none) ⊎ ((w : Text) × (wd ≡ some (slash ∷ w)))

-- An absolute and clean directory.
abbrev pub IsDir : Text → Type 0
IsDir dir = (ds : List Text) × All IsNormal ds × (dir ≡ rooted ds)

-- A directory that there is now.
abbrev pub IsMade : (Text → Bool) → Text → Type 0
IsMade mkdir dir = IsDir dir × (mkdir dir ≡ true)

-- What holds of a program that goes on to serve, against the flags and the system.
pub record Ready {Logs Time : Type 0} (f : Flags) (m : Machine Logs Time) (p : Program Logs Time)
    : Type 0 where
  pub docker : f.disable_docker ≡ false → (version : Text) × (p.client ≡ some version)
  pub drivers :
      f.disable_docker ≡ true
      → (p.client ≡ none) × ((p.directories.log_output_dir ≡ []) ⊎ (p.capture_driver_logs ≡ false))
  pub videos : f.disable_docker ≡ false → IsMade m.mkdir p.directories.video_output_dir
  pub logs : (p.directories.log_output_dir ≡ []) ⊎ IsMade m.mkdir p.directories.log_output_dir
  pub same_videos : p.environment.video_output_dir ≡ p.directories.video_output_dir
  pub same_logs : p.environment.has_log_output_dir ≡ not (text_eq p.directories.log_output_dir [])

module _ {Logs Time : Type 0} (f : Flags) (m : Machine Logs Time) where
  -- The same before there is a manager.
  record Prepared (p : Program Logs Time) : Type 0 where
    pub no_client : p.client ≡ none
    pub videos : f.disable_docker ≡ false → IsMade m.mkdir p.directories.video_output_dir
    pub logs : (p.directories.log_output_dir ≡ []) ⊎ IsMade m.mkdir p.directories.log_output_dir
    pub same_videos : p.environment.video_output_dir ≡ p.directories.video_output_dir
    pub same_logs : p.environment.has_log_output_dir ≡ not (text_eq p.directories.log_output_dir [])
