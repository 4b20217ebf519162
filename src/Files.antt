-- ===== src/Files.antt =====
-- The handlers of files: `video` and `deleteFileIfExists` of main.go, `logs`, `listFilesAsJson` and
-- `fileUpload` of selenoid.go. `filepath.Join` is `path_join` on a system with slashes.
pub mod Inside
pub mod Uploads
mod Examples
use selenoid.Base.{
  ℕ, Bool, true, false, not, ◌&&◌, ◌||◌, Option, none, some, List, [], ◌∷◌, ◌++◌, Text, text_eq,
  codes, has_suffix, trim_prefix, decimal, if◌then◌else◌, length,
}
use selenoid.Paths.{path_join}
use selenoid.Routes.{Route, video, logs, Target, to_route, dispatch}
use selenoid.Jsonerror.{SeleniumError, invalid_argument, unknown_error}

-- The method of a request, as far as these handlers look at it, its path, and whether its query has `json`.
pub record Asked : Type 0 where
  pub is_delete : Bool
  pub path : Text
  pub has_json : Bool

-- What the file system answers: `remove` is none where the file could be removed, else the error.
pub record Disk : Type 0 where
  pub exists : Text → Bool
  pub remove : Text → Option Text
  pub read_dir : Text → Option (List Text)

-- What is written: nothing, a plain error, names as JSON, what the file server of this directory has under
-- this name, or the log that `streamLogs` sends over a WebSocket.
pub data Served : Type 0 where
  nothing : Served
  http_error : ℕ → Text → Served
  listed : List Text → Served
  from_directory : (dir name : Text) → Served
  streamed : Served

-- The files that were removed, and the answer.
abbrev pub Handled : Type 0
Handled = List Text × Served

removing : Text → Option Text → Handled
removing file none = (file ∷ [], nothing)
removing file (some err) =
    ([], http_error 500 (codes "Failed to delete file " ++ (file ++ (codes ": " ++ err))))

-- `deleteFileIfExists`
pub delete_file_if_exists : Disk → Asked → (dir prefix : Text) → Handled
unfolding removing
delete_file_if_exists d a dir prefix =
    let file = path_join dir (trim_prefix a.path prefix) in
    if d.exists file
    then removing file (d.remove file)
    else ([], http_error 404 (codes "Unknown file " ++ file))

-- `listFilesAsJson`
list_files_as_json : Option (List Text) → Handled
list_files_as_json none = ([], http_error 500 [])
list_files_as_json (some names) = ([], listed names)

-- What both handlers do with a directory.
pub serve_directory : Disk → Asked → (dir prefix : Text) → Handled
unfolding list_files_as_json
serve_directory d a dir prefix =
    if a.is_delete
    then delete_file_if_exists d a dir prefix
    else if a.has_json
    then list_files_as_json (d.read_dir dir)
    else ([], from_directory dir (trim_prefix a.path prefix))

pub record Directories : Type 0 where
  pub video_output_dir : Text
  pub log_output_dir : Text

-- `video`
pub serve_video : Directories → Disk → Asked → Handled
serve_video c d a = serve_directory d a c.video_output_dir (codes "/video/")

-- The test of `logs`: the directory of the logs, or one of its files, is meant.
names_log : Directories → Text → Bool
names_log c name =
    not (text_eq c.log_output_dir []) && (text_eq name [] || has_suffix name (codes ".log"))

-- `logs`
pub serve_logs : Directories → Disk → Asked → Handled
unfolding names_log
serve_logs c d a =
    if names_log c (trim_prefix a.path (codes "/logs/"))
    then serve_directory d a c.log_output_dir (codes "/logs/")
    else ([], streamed)

-- The entry of an archive: its name, and whether it opens.
pub record Entry : Type 0 where
  pub name : Text
  pub opens : Bool

-- What the decoders and the file system answer to an upload: the archive in the body, its entries, and
-- whether the directory, the file and its bytes can be written.
pub record UploadAnswers : Type 0 where
  pub decoded : Option Text
  pub zip : Text → Option (List Entry)
  pub mkdir : Text → Bool
  pub open_file : Text → Bool
  pub copies : Bool

pub data Write : Type 0 where
  made_dir : Text → Write
  created : Text → Write
  copied : Text → Write

pub data Reply : Type 0 where
  refused : SeleniumError → Reply
  uploaded : Text → Reply

abbrev pub Uploaded : Type 0
Uploaded = List Write × Reply

-- The errors of the decoders and of the system are not told apart.
abbrev bad : Text → Uploaded
bad err = ([], refused (invalid_argument err))

-- From `os.MkdirAll` on.
write_entry : UploadAnswers → (dir file : Text) → Uploaded
write_entry o dir file =
    if not (o.mkdir dir)
    then ([], refused (unknown_error (codes "mkdir")))
    else if not (o.open_file file)
    then (made_dir dir ∷ [], refused (unknown_error (codes "open")))
    else if o.copies
    then (made_dir dir ∷ created file ∷ copied file ∷ [], uploaded file)
    else (made_dir dir ∷ created file ∷ [], refused (unknown_error (codes "copy")))

upload_entries : UploadAnswers → Text → Option (List Entry) → Uploaded
unfolding write_entry
upload_entries o dir none = bad (codes "zip")
upload_entries o dir (some (e ∷ [])) =
    if e.opens then write_entry o dir (path_join dir e.name) else bad (codes "zip")
upload_entries o dir (some es) =
    bad (codes "expected there to be only 1 file. There were: " ++ decimal (length es))

upload_body : UploadAnswers → Text → Option Text → Uploaded
unfolding upload_entries
upload_body o dir none = bad (codes "json")
upload_body o dir (some archive) = upload_entries o dir (o.zip archive)

-- `fileUpload`; the header `X-Selenoid-File` is the directory, and empty if it is missing.
pub file_upload : UploadAnswers → Text → Uploaded
unfolding upload_body
file_upload o dir = upload_body o dir o.decoded

serve_route : Directories → Disk → Asked → Route → Handled
serve_route c d a video = serve_video c d a
serve_route c d a logs = serve_logs c d a
serve_route c d a _ = ([], nothing)

-- What these handlers do for a request that was routed; the others remove no files.
serve_target : Directories → Disk → Asked → Target → Handled
unfolding serve_route
serve_target c d a (to_route r p) = serve_route c d (record a { path = p }) r
serve_target c d a _ = ([], nothing)

pub serve_request : (enable_file_upload is_post : Bool) → Directories → Disk → Asked → Handled
unfolding serve_target
serve_request up is_post c d a = serve_target c d a (dispatch up is_post a.path)
