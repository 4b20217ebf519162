-- ===== src/Files/Examples.antt =====
-- A directory of videos, an archive, and the theorems about them.
use selenoid.Base.{
  ◌≡◌, refl, true, false, none, some, [], ◌∷◌, codes, arith, text_eq, has_prefix, trim_prefix,
}
use selenoid.Paths.{clean, path_join}
use selenoid.Paths.Elements.{rooted}
use selenoid.Files.{
  Asked, Disk, Directories, UploadAnswers, made_dir, created, copied, uploaded, nothing,
  delete_file_if_exists, file_upload,
}
use selenoid.Files.Uploads.{Upload, file_upload-Saves, file_upload_escapes}

abbrev disk : Disk
disk = record { exists = λ f. true; remove = λ f. none; read_dir = λ f. some [] }

abbrev directories : Directories
directories = record { video_output_dir = codes "/opt/video"; log_output_dir = codes "/opt/logs" }

abbrev deletion : Asked
deletion = record { is_delete = true; path = codes "/video/s1.mp4"; has_json = false }

-- The directory itself is removed where no name is given and it is empty.
removes_directory :
    (delete_file_if_exists disk
      (record deletion { path = codes "/video/" })
      (codes "/opt/video")
      (codes "/video/"))
    ≡ (codes "/opt/video" ∷ [], nothing)
unfolding delete_file_if_exists path_join clean trim_prefix has_prefix text_eq
removes_directory = refl

abbrev answers : UploadAnswers
answers = record {
  decoded = some (codes "PK");
  zip = λ a. some (record { name = codes "../s2"; opens = true } ∷ []);
  mkdir = λ d. true;
  open_file = λ f. true;
  copies = true;
}

file_upload-Saves_example :
    Upload answers
      (codes "tmp")
      (codes "s1" ∷ [])
      (file_upload answers (rooted (codes "tmp" ∷ codes "s1" ∷ [])))
file_upload-Saves_example =
    file_upload-Saves answers (codes "tmp") (codes "s1" ∷ []) (ground arith, (ground arith, tt))

file_upload_escapes_example : file_upload answers (rooted (codes "tmp" ∷ codes "s1" ∷ [])) ≡ (
  made_dir (rooted (codes "tmp" ∷ codes "s1" ∷ []))
      ∷ created (rooted (codes "tmp" ∷ codes "s2" ∷ []))
      ∷ copied (rooted (codes "tmp" ∷ codes "s2" ∷ []))
      ∷ [],
  uploaded (rooted (codes "tmp" ∷ codes "s2" ∷ [])),
)
file_upload_escapes_example =
    file_upload_escapes answers (codes "tmp" ∷ []) (codes "s1") (codes "s2") (codes "PK") refl refl
      refl refl refl (ground arith, (ground arith, tt)) (ground arith) (ground arith)
