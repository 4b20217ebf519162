-- ===== src/Files/Uploads.antt =====
-- What `fileUpload` of selenoid.go writes, and where.
use selenoid.Base.{
  ◌≡◌, refl, ◌≢◌, Bool, true, false, not, Option, none, some, List, [], ◌∷◌, ◌++◌, Text, text_eq,
  text_eq_iff, codes, All, Bool-cases, inl, inr, ◌⊎◌, if◌then◌else◌,
}
use selenoid.Paths.{split, path_join}
use selenoid.Paths.Clean.{NoUp, path_join_inside}
use selenoid.Paths.Elements.{IsNormal, rooted}
use selenoid.Paths.Up.{path_join_up}
use selenoid.Jsonerror.{invalid_argument, unknown_error}
use selenoid.Files.{
  Entry, UploadAnswers, made_dir, created, copied, refused, uploaded, Uploaded, write_entry,
  upload_entries, upload_body, file_upload,
}
use selenoid.Files.Inside.{Below}

-- The file is there with its bytes, and its name is the answer; or the answer is an error of the server,
-- and no bytes were written in full.
abbrev pub Saves : Text → Text → Uploaded → Type 0
Saves dir file x =
    (x ≡ (made_dir dir ∷ created file ∷ copied file ∷ [], uploaded file))
    ⊎ ((err : Text) × (x.1 ≡ refused (unknown_error err))
        × ((x.0 ≡ []) ⊎ ((x.0 ≡ made_dir dir ∷ []) ⊎ (x.0 ≡ made_dir dir ∷ created file ∷ []))))

-- Nothing is written, and the answer is an error of the client.
abbrev pub Rejects : Uploaded → Type 0
Rejects x = (err : Text) × (x ≡ ([], refused (invalid_argument err)))

-- The name has no `..` and leads into the directory, or it has one.
abbrev pub Placed : List Text → Text → Text → Type 0
Placed ds name file = (NoUp name × Below ds file) ⊎ (¬ NoUp name)

no_up? : (fs : List Text) → All (λ f. f ≢ codes "..") fs ⊎ (¬ All (λ f. f ≢ codes "..") fs)
no_up? [] = inl tt
no_up? (f ∷ fs) = elim (Bool-cases (text_eq f (codes ".."))) [
  | inl up ↦ inr (λ h. h.0 ((text_eq_iff f (codes "..")).0 up))
  | inr other ↦ elim (no_up? fs) [
    | inl none_up ↦ inl (λ e. let same = (text_eq_iff f (codes "..")).1 e in cc, none_up)
    | inr some_up ↦ inr (λ h. some_up h.1)
  ]
]

placed :
    (d : Text) (ds : List Text) (name : Text)
    → All IsNormal (d ∷ ds)
    → Placed (d ∷ ds) name (path_join (rooted (d ∷ ds)) name)
placed d ds name h = elim (no_up? (split name)) [
  | inl none_up ↦ inl (none_up, path_join_inside d ds name h none_up)
  | inr some_up ↦ inr some_up
]

either {ℓ} :
    (P : Uploaded → Type ℓ) (b : Bool) (x y : Uploaded) → P x → P y → P (if b then x else y)
either P true x y hx hy = hx
either P false x y hx hy = hy

entry-Saves : (o : UploadAnswers) (dir file : Text) → Saves dir file (write_entry o dir file)
unfolding write_entry
entry-Saves o dir file =
    either (Saves dir file) (not (o.mkdir dir)) _ _ (inr (codes "mkdir", refl, inl refl)) (
      either (Saves dir file) (not (o.open_file file)) _ _
        (inr (codes "open", refl, inr (inl refl)))
        (either (Saves dir file) o.copies _ _ (inl refl)
          (inr (codes "copy", refl, inr (inr refl)))))

-- The one entry of the archive in the body is saved below the directory.
abbrev pub Upload : UploadAnswers → Text → List Text → Uploaded → Type 0
Upload o d ds x =
    Rejects x
    ⊎ ((archive : Text) × (e : Entry) × (o.decoded ≡ some archive)
        × (o.zip archive ≡ some (e ∷ []))
        × Saves (rooted (d ∷ ds)) (path_join (rooted (d ∷ ds)) e.name) x
        × Placed (d ∷ ds) e.name (path_join (rooted (d ∷ ds)) e.name))

module _ (o : UploadAnswers) (d : Text) (ds : List Text) (h : All IsNormal (d ∷ ds)) where
  entries-Upload :
      (archive : Text) (entries : Option (List Entry))
      → o.decoded ≡ some archive
      → o.zip archive ≡ entries
      → Upload o d ds (upload_entries o (rooted (d ∷ ds)) entries)
  unfolding upload_entries
  entries-Upload archive none got unzipped = inl (codes "zip", refl)
  entries-Upload archive (some []) got unzipped = inl (_, refl)
  entries-Upload archive (some (e ∷ [])) got unzipped =
      either (Upload o d ds) e.opens _ _
        (inr (
          archive,
          e,
          got,
          unzipped,
          entry-Saves o (rooted (d ∷ ds)) (path_join (rooted (d ∷ ds)) e.name),
          placed d ds e.name h,
        ))
        (inl (codes "zip", refl))
  entries-Upload archive (some (e ∷ f ∷ es)) got unzipped = inl (_, refl)

  body-Upload :
      (body : Option Text) → o.decoded ≡ body → Upload o d ds (upload_body o (rooted (d ∷ ds)) body)
  unfolding upload_body
  body-Upload none got = inl (codes "json", refl)
  body-Upload (some archive) got = entries-Upload archive (o.zip archive) got refl

-- `fileUpload` answers an error of the client and writes nothing; or the archive in the body has one entry,
-- and its bytes are in the file that is answered, which lies in the directory of the session if the name of
-- the entry has no `..`; or the answer is an error of the server, and no bytes were written in full.
pub file_upload-Saves :
    (o : UploadAnswers) (d : Text) (ds : List Text)
    → All IsNormal (d ∷ ds)
    → Upload o d ds (file_upload o (rooted (d ∷ ds)))
unfolding file_upload
file_upload-Saves o d ds h = body-Upload o d ds h o.decoded refl

-- An entry `../<name>` is written beside the directory of the session, wherever files can be written.
pub file_upload_escapes :
    (o : UploadAnswers) (ds : List Text) (sid name archive : Text)
    → o.decoded ≡ some archive
    → o.zip archive ≡ some (record { name = codes "../" ++ name; opens = true } ∷ [])
    → o.mkdir (rooted (ds ++ (sid ∷ []))) ≡ true
    → o.open_file (rooted (ds ++ (name ∷ []))) ≡ true
    → o.copies ≡ true
    → All IsNormal (ds ++ (sid ∷ []))
    → IsNormal sid
    → IsNormal name
    → file_upload o (rooted (ds ++ (sid ∷ []))) ≡ (
      made_dir (rooted (ds ++ (sid ∷ [])))
          ∷ created (rooted (ds ++ (name ∷ [])))
          ∷ copied (rooted (ds ++ (name ∷ [])))
          ∷ [],
      uploaded (rooted (ds ++ (name ∷ []))),
    )
unfolding file_upload upload_body upload_entries write_entry
file_upload_escapes o ds sid name archive decoded zip made opened copied_all h n m =
    simp (decoded, zip, path_join_up ds sid name h n m, made, opened, copied_all)
