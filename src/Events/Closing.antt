-- ===== src/Events/Closing.antt =====
-- selenoid.go: the function `cancelAndRenameFiles` of `create`, which is the `Cancel` of a session.
pub mod Expected
use selenoid.Base.{
  Bool, true, false, ◌&&◌, ◌||◌, not, Option, none, some, List, [], ◌∷◌, ◌++◌, Text, text_eq, codes,
  if◌then◌else◌,
}
use selenoid.Paths.{path_join}
use selenoid.Session.Caps.{Caps, CapsFields, fields, with_fields}
use selenoid.Session.Store.{Session}
use selenoid.Upload.{CreatedFile}
use selenoid.Events.{StoppedSession, Registry, S3Uploader, file_created, session_stopped}

-- The flags; `ggr_sum` is the hash of the Ggr host, if there is one.
pub record Flags : Type 0 where
  pub disable_docker : Bool
  pub video_output_dir : Text
  pub log_output_dir : Text
  pub save_all_logs : Bool
  pub ggr_sum : Option Text

-- `preprocessSessionId`
pub preprocess_session_id : Flags → Text → Text
preprocess_session_id c sid = elim c.ggr_sum [ none ↦ sid | some sum ↦ sum ++ sid ]

pub data Closing : Type 0 where
  stopped : Closing
  renamed : (old new : Text) → Closing
  kept : (old new : Text) → Closing  -- the file could not be renamed
  announced : CreatedFile → Closing
  ended : StoppedSession → Closing

-- The name that the client has chosen, or the session's.
pub final_name : Text → Text → Text → Text
final_name [] sid extension = sid ++ extension
final_name (c ∷ chosen) sid extension = c ∷ chosen

name_video : Text → Text → Session → Session
name_video [] name s = record s {
  caps = with_fields s.caps (record (fields s.caps) { video_name = name });
}
name_video (c ∷ chosen) name s = s

name_log : Text → Text → Session → Session
name_log [] name s = record s {
  caps = with_fields s.caps (record (fields s.caps) { log_name = name });
}
name_log (c ∷ chosen) name s = s

-- `os.Rename`, and `FileCreated` where it succeeds.
rename : (Text → Text → Bool) → Text → Session → (old new type : Text) → List Closing
rename renames sid s old new type =
    if renames old new
    then renamed old new
      ∷ announced (record { session_id = sid; session = s; name = new; file_type = type })
      ∷ []
    else kept old new ∷ []

pub has_video : Flags → CapsFields → Bool
has_video c caps = caps.video && not c.disable_docker

pub has_log : Flags → CapsFields → Bool
has_log c caps = not (text_eq c.log_output_dir []) && (c.save_all_logs || caps.log)

-- What is done with the video, with the session as it is then.
close_video :
    Flags → CapsFields → (Text → Text → Bool) → Text → Text → Session → List Closing × Session
unfolding final_name name_video rename has_video
close_video c caps renames sid chosen s =
    let name = final_name chosen sid (codes ".mp4") in
    let t = name_video chosen name s in
    if has_video c caps
    then (
      rename renames sid t (path_join c.video_output_dir caps.video_name)
          (path_join c.video_output_dir name) (codes "video"),
      t,
    )
    else ([], s)

close_log :
    Flags → CapsFields → (Text → Text → Bool) → Text → Text → Session → List Closing × Session
unfolding final_name name_log rename has_log
close_log c caps renames sid chosen s =
    let name = final_name chosen sid (codes ".log") in
    let t = name_log chosen name s in
    if has_log c caps
    then (
      rename renames sid t (path_join c.log_output_dir caps.log_name)
          (path_join c.log_output_dir name) (codes "log"),
      t,
    )
    else ([], s)

-- `cancelAndRenameFiles`: `caps` are those of the browser, with the temporary names, `video` and `log` the
-- names that the client has chosen.
pub cancel_and_rename_files :
    Flags → CapsFields → (Text → Text → Bool) → (id video log : Text) → Session → List Closing
unfolding preprocess_session_id close_video close_log
cancel_and_rename_files c caps renames id video log s =
    let sid = preprocess_session_id c id in
    let (videos, t) = close_video c caps renames sid video s in
    let (logs, u) = close_log c caps renames sid log t in
    stopped ∷ (videos ++ (logs ++ (ended (record { session_id = sid; session = u }) ∷ [])))

-- The files that are created when a session ends: those that are announced, and the metadata.
created_files : Registry → (dir : Text) → (Text → Bool) → List Closing → List CreatedFile
created_files g dir writes [] = []
created_files g dir writes (announced f ∷ acts) = f ∷ created_files g dir writes acts
created_files g dir writes (ended e ∷ acts) =
    session_stopped g dir writes e ++ created_files g dir writes acts
created_files g dir writes (_ ∷ acts) = created_files g dir writes acts

upload_all : Registry → List CreatedFile → List (S3Uploader × CreatedFile)
upload_all g [] = []
upload_all g (f ∷ fs) = file_created g f ++ upload_all g fs

-- The uploads that the end of a session starts.
pub uploads :
    Registry → (dir : Text) → (Text → Bool) → List Closing → List (S3Uploader × CreatedFile)
unfolding created_files upload_all
uploads g dir writes acts = upload_all g (created_files g dir writes acts)
