-- ===== src/Events/Announcements.antt =====
-- Every uploader hears of every file once.
use selenoid.Base.{
  ◌≡◌, refl, ap, ◌∙◌, Bool, true, false, some, List, [], ◌∷◌, ◌++◌, map, arith, if◌then◌else◌, sym,
}
use mathlib.Core.Path.{subst}
use mathlib.Core.List.{append_assoc, append-nil}
use selenoid.Upload.{CreatedFile}
use selenoid.Events.{
  FileCreatedListener, S3Uploader, Registry, upload_files, metadata_processor, at_start,
  add_uploader, add_session_stopped_listener, add_to, add_file_created_listener, file_created,
  heard, on_file_created, uploaders,
}

-- The `init` functions of the uploaders, one after the other.
abbrev pub register : List S3Uploader → Registry → Registry
register [] g = g
register (u ∷ us) g = register us (add_uploader u g)

-- With or without the metadata, which the build decides.
abbrev pub registry : Bool → List S3Uploader → Registry
registry true us = add_session_stopped_listener metadata_processor (register us at_start)
registry false us = register us at_start

-- All uploaders, each with this file.
abbrev pub each : List S3Uploader → CreatedFile → List (S3Uploader × CreatedFile)
each us f = map (λ u. (u, f)) us

-- What is true once there is an uploader.
record Holds (us : List S3Uploader) (g : Registry) : Type 0 where
  one_listener : g.file_created_listeners ≡ upload_files ∷ []
  all_there : g.upl ≡ some us
  nobody_else : g.session_stopped_listeners ≡ []

add-Holds :
    (vs : List S3Uploader) (u : S3Uploader) (g : Registry)
    → Holds vs g
    → Holds (vs ++ (u ∷ [])) (add_uploader u g)
unfolding add_uploader add_to
add-Holds vs u g h = ground arith

register-Holds :
    (vs us : List S3Uploader) (g : Registry) → Holds vs g → Holds (vs ++ us) (register us g)
register-Holds vs [] g h = subst (λ l. Holds l g) (sym (append-nil vs)) h
register-Holds vs (u ∷ us) g h =
    subst (λ l. Holds l (register us (add_uploader u g))) (append_assoc vs (u ∷ []) us)
      (register-Holds (vs ++ (u ∷ [])) us (add_uploader u g) (add-Holds vs u g h))

first-Holds : (u : S3Uploader) → Holds (u ∷ []) (add_uploader u at_start)
unfolding add_uploader add_to at_start add_file_created_listener
first-Holds u = record { one_listener = refl; all_there = refl; nobody_else = refl }

-- The listeners of an uploader for files, and for sessions if there is the metadata.
pub record Listens (m : Bool) (us : List S3Uploader) (g : Registry) : Type 0 where
  pub hears : (f : CreatedFile) → file_created g f ≡ each us f
  pub stops : g.session_stopped_listeners ≡ (if m then metadata_processor ∷ [] else [])

held_hears :
    (us : List S3Uploader) (g : Registry)
    → Holds us g
    → (f : CreatedFile) → file_created g f ≡ each us f
unfolding file_created heard on_file_created uploaders
held_hears us g h f = rw (h.one_listener, h.all_there) (append-nil (each us f))

registered-Listens : (us : List S3Uploader) → Listens false us (register us at_start)
registered-Listens [] = record {
  hears = λ f. unfold file_created at_start heard in refl;
  stops = unfold at_start in refl;
}
registered-Listens (u ∷ us) =
    let h = register-Holds (u ∷ []) us (add_uploader u at_start) (first-Holds u) in
    record {
      hears = held_hears (u ∷ us) (register us (add_uploader u at_start)) h;
      stops = h.nobody_else;
    }

heard-same :
    (g : Registry) (f : CreatedFile) (ls : List FileCreatedListener)
    → heard (add_session_stopped_listener metadata_processor g) f ls ≡ heard g f ls
unfolding heard on_file_created uploaders add_session_stopped_listener
heard-same g f [] = refl
heard-same g f (upload_files ∷ ls) = ap (λ l. each (uploaders g) f ++ l) (heard-same g f ls)

metadata-Listens :
    (us : List S3Uploader) (g : Registry)
    → Listens false us g
    → Listens true us (add_session_stopped_listener metadata_processor g)
unfolding add_session_stopped_listener file_created
metadata-Listens us g h = record {
  hears = λ f. heard-same g f g.file_created_listeners ∙ h.hears f;
  stops = rw h.stops refl;
}

pub registry-Listens : (m : Bool) (us : List S3Uploader) → Listens m us (registry m us)
registry-Listens true us = metadata-Listens us (register us at_start) (registered-Listens us)
registry-Listens false us = registered-Listens us
