-- ===== src/Events/Closing/Expected.antt =====
-- What the end of a session does to its browser and its files, and who gets the files.
use selenoid.Base.{ℕ, Bool, true, false, ◌&&◌, not, List, [], ◌∷◌, ◌++◌, map, Text, text_eq, codes}
use selenoid.Paths.{path_join}
use selenoid.Session.Caps.{CapsFields}
use selenoid.Session.Store.{Session}
use selenoid.Upload.{CreatedFile}
use selenoid.Events.{S3Uploader}
use selenoid.Events.Announcements.{each}
use selenoid.Events.Closing.{Flags, Closing, stopped, final_name, has_video, has_log}

-- How often the browser is stopped.
abbrev pub stops : Closing → ℕ
stops stopped = 1
stops _ = 0

-- The name of a file that is there under this condition.
abbrev pub named : Bool → Text → List Text
named true name = name ∷ []
named false name = []

abbrev pub video_file : Flags → CapsFields → (Text → Text → Bool) → (sid video : Text) → List Text
video_file c caps renames sid video =
    let new = path_join c.video_output_dir (final_name video sid (codes ".mp4")) in
    named (has_video c caps && renames (path_join c.video_output_dir caps.video_name) new) new

abbrev pub log_file : Flags → CapsFields → (Text → Text → Bool) → (sid log : Text) → List Text
log_file c caps renames sid log =
    let new = path_join c.log_output_dir (final_name log sid (codes ".log")) in
    named (has_log c caps && renames (path_join c.log_output_dir caps.log_name) new) new

abbrev pub metadata : Bool → Text → (Text → Bool) → Text → List Text
metadata m dir writes sid =
    let name = path_join dir (sid ++ codes ".json") in
    named (m && (not (text_eq dir []) && writes name)) name

-- The files by their sessions and names.
abbrev pub labels : List CreatedFile → List (Text × Text)
labels = map (λ f. (f.session_id, f.name))

abbrev pub of_session : Text → List Text → List (Text × Text)
of_session sid = map (λ n. (sid, n))

-- Every uploader with every file.
abbrev pub each_of : List S3Uploader → List CreatedFile → List (S3Uploader × CreatedFile)
each_of us [] = []
each_of us (f ∷ fs) = each us f ++ each_of us fs
