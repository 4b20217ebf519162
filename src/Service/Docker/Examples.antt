-- ===== src/Service/Docker/Examples.antt =====
-- A browser with a video whose service does not respond, and the theorem about it.
use selenoid.Base.{
  ◌+◌, ◌≡◌, refl, true, false, Option, some, [], ◌∷◌, Text, codes, total, all, bit, text_eq,
}
use selenoid.Session.Caps.{CapsFields, no_caps}
use selenoid.Service.Docker.Settings.{Answers}
use selenoid.Service.Docker.Samples.{environment, browser, answering}
use selenoid.Service.Docker.Logs.{LogConfig}
use selenoid.Service.Docker.{start_with_cancel, cancel}
use selenoid.Service.Docker.Containers.{start_with_cancel-Leaves}
use selenoid.Service.Docker.Counts.{Leaves, count, removals}

abbrev caps : CapsFields
caps = record no_caps {
  video = true;
  video_name = codes "selenoid00.mp4";
  additional_networks = codes "lab" ∷ [];
}

-- The service does not respond.
abbrev silent : Answers
silent = record answering { responds = false }

abbrev shared : LogConfig
shared = record { driver = codes "syslog"; config = some [] }

start_with_cancel-Leaves_example :
    Leaves
      (codes "c1")
      (some (codes "c1"))
      (all silent.connects caps.additional_networks)
      (start_with_cancel environment caps browser shared silent)
    × ((id : Text) (video : Option Text)
        → total (removals (codes "c1")) (cancel environment caps silent id video)
          ≡ bit (text_eq id (codes "c1")) + count (codes "c1") video)
start_with_cancel-Leaves_example =
    start_with_cancel-Leaves (codes "c1") environment caps browser shared silent refl refl
