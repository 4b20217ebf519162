-- ===== src/Events.antt =====
-- event/event.go, upload/uploader.go, `Init` of upload/s3.go and metadata.go: who hears of a file that was
-- created and of a session that has stopped.
--
-- Listeners and uploaders run in goroutines of their own; they are listed in the order in which these start.
pub mod Closing
pub mod Announcements
mod Examples
use selenoid.Base.{
  Bool, true, false, ◌&&◌, not, Option, none, some, List, [], ◌∷◌, ◌++◌, map, Text, text_eq, codes,
  if◌then◌else◌,
}
use mathlib.Core.List.{flat_map}
use selenoid.Paths.{path_join}
use selenoid.Session.Store.{Session}
use selenoid.Upload.{Uploader, CreatedFile}

-- `S3Uploader` with its flags.
pub record S3Uploader : Type 0 where
  pub endpoint : Text
  pub region : Text
  pub access_key : Text
  pub secret_key : Text
  pub force_path_style : Bool
  pub uploader : Uploader

-- `aws.Config`
pub record AwsConfig : Type 0 where
  pub endpoint : Text
  pub region : Text
  pub force_path_style : Bool
  pub credentials : Option (Text × Text)

-- The compression that is used; others end the program, which is written `none`.
known_compression : Text → Option Text
known_compression c =
    if text_eq c []
    then some (codes "none")
    else if text_eq c (codes "none")
    then some (codes "none")
    else if text_eq c (codes "zstd")
    then some c
    else none

aws_config : S3Uploader → AwsConfig
aws_config s = record {
  endpoint = s.endpoint;
  region = s.region;
  force_path_style = s.force_path_style;
  credentials =
      if not (text_eq s.access_key []) && not (text_eq s.secret_key [])
      then some (s.access_key, s.secret_key)
      else none;
}

with_compression : (AwsConfig → Bool) → S3Uploader → Option Text → Option S3Uploader
unfolding aws_config
with_compression new_session s none = none
with_compression new_session s (some c) =
    if new_session (aws_config s)
    then some (record s { uploader = record s.uploader { compression = c; initialized = true } })
    else none

-- `S3Uploader.Init`; `new_session` stands for `awssession.NewSession`.
pub s3_init : (AwsConfig → Bool) → S3Uploader → Option S3Uploader
unfolding with_compression known_compression
s3_init new_session s =
    if text_eq s.endpoint []
    then some s
    else with_compression new_session s (known_compression s.uploader.compression)

-- The listeners: the one object `upl` of uploader.go, and `MetadataProcessor`. Neither is `InitRequired`.
pub data FileCreatedListener : Type 0 where
  upload_files : FileCreatedListener

pub data SessionStoppedListener : Type 0 where
  metadata_processor : SessionStoppedListener

-- The variables of the packages `event` and `upload`.
pub record Registry : Type 0 where
  pub file_created_listeners : List FileCreatedListener
  pub session_stopped_listeners : List SessionStoppedListener
  pub upl : Option (List S3Uploader)

unfoldable pub at_start : Registry
at_start = record { file_created_listeners = []; session_stopped_listeners = []; upl = none }

add_file_created_listener : FileCreatedListener → Registry → Registry
add_file_created_listener l g = record g {
  file_created_listeners = g.file_created_listeners ++ (l ∷ []);
}

pub add_session_stopped_listener : SessionStoppedListener → Registry → Registry
add_session_stopped_listener l g = record g {
  session_stopped_listeners = g.session_stopped_listeners ++ (l ∷ []);
}

add_to : Option (List S3Uploader) → S3Uploader → Registry → Registry
unfolding add_file_created_listener
add_to none u g = add_file_created_listener upload_files (record g { upl = some (u ∷ []) })
add_to (some us) u g = record g { upl = some (us ++ (u ∷ [])) }

-- `AddUploader`
pub add_uploader : S3Uploader → Registry → Registry
unfolding add_to
add_uploader u g = add_to g.upl u g

init_all : (AwsConfig → Bool) → List S3Uploader → Option (List S3Uploader)
init_all new_session [] = some []
init_all new_session (u ∷ us) = elim (s3_init new_session u) [
  | none ↦ none
  | some v ↦ elim (init_all new_session us) [ none ↦ none | some vs ↦ some (v ∷ vs) ]
]

init_uploaders : (AwsConfig → Bool) → Option (List S3Uploader) → Registry → Option Registry
unfolding init_all
init_uploaders new_session none g = some g
init_uploaders new_session (some us) g = elim (init_all new_session us) [
  | none ↦ none
  | some vs ↦ some (record g { upl = some vs })
]

-- `upload.Init`
unfoldable pub init : (AwsConfig → Bool) → Registry → Option Registry
unfolding init_uploaders
init new_session g = init_uploaders new_session g.upl g

uploaders : Registry → List S3Uploader
uploaders g = elim g.upl [ none ↦ [] | some us ↦ us ]

-- `Upload.OnFileCreated`: the calls of `Upload`, each in its goroutine.
on_file_created : Registry → CreatedFile → FileCreatedListener → List (S3Uploader × CreatedFile)
unfolding uploaders
on_file_created g f upload_files = map (λ u. (u, f)) (uploaders g)

heard : Registry → CreatedFile → List FileCreatedListener → List (S3Uploader × CreatedFile)
unfolding on_file_created
heard g f [] = []
heard g f (l ∷ ls) = on_file_created g f l ++ heard g f ls

-- `FileCreated`
pub file_created : Registry → CreatedFile → List (S3Uploader × CreatedFile)
unfolding heard
file_created g f = heard g f g.file_created_listeners

-- `StoppedSession`
pub record StoppedSession : Type 0 where
  pub session_id : Text
  pub session : Session

-- The file of the metadata, where there is a directory for it and it can be written.
metadata_file : Text → (Text → Bool) → StoppedSession → Option CreatedFile
metadata_file dir writes s =
    let name = path_join dir (s.session_id ++ codes ".json") in
    if text_eq dir []
    then none
    else if writes name
    then some (record {
      session_id = s.session_id;
      session = s.session;
      name = name;
      file_type = codes "metadata";
    })
    else none

-- `MetadataProcessor.OnSessionStopped`
pub on_session_stopped :
    Text → (Text → Bool) → StoppedSession → SessionStoppedListener → Option CreatedFile
unfolding metadata_file
on_session_stopped dir writes s metadata_processor = metadata_file dir writes s

and_more : Option CreatedFile → List CreatedFile → List CreatedFile
and_more none fs = fs
and_more (some f) fs = f ∷ fs

metadata_of : Text → (Text → Bool) → StoppedSession → List SessionStoppedListener → List CreatedFile
unfolding on_session_stopped and_more
metadata_of dir writes s [] = []
metadata_of dir writes s (l ∷ ls) =
    and_more (on_session_stopped dir writes s l) (metadata_of dir writes s ls)

-- `SessionStopped`: the files of metadata that are created.
pub session_stopped : Registry → Text → (Text → Bool) → StoppedSession → List CreatedFile
unfolding metadata_of
session_stopped g dir writes s = metadata_of dir writes s g.session_stopped_listeners
