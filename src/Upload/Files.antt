-- ===== src/Upload/Files.antt =====
-- Which files upload/s3.go uploads and removes.
use selenoid.Base.{
  ◌≡◌, Bool, true, false, Option, none, some, [], ◌∷◌, Text, codes, if◌then◌else◌, ◌⊎◌,
}
use selenoid.Upload.{Uploader, Outcome, uploaded, removed, UploadInput}

-- Nothing happens to the file.
abbrev pub Skipped : Outcome → Type 0
Skipped x = (x.actions ≡ []) × (x.was_uploaded ≡ false)

-- What is uploaded says how it is encoded, and goes under this key into this bucket.
pub record Described (bucket key : Text) (i : UploadInput) : Type 0 where
  pub in_bucket : i.bucket ≡ bucket
  pub under_key : i.key ≡ key
  pub encoded : i.content_encoding ≡ (if i.body_compressed then some (codes "zstd") else none)

-- The file is uploaded once, so described, and if it is removed, then after that.
abbrev pub Stored : Uploader → Text → Outcome → Type 0
Stored u key x =
    (x.was_uploaded ≡ true)
    × ((i : UploadInput) × Described u.bucket_name key i
        × ((x.actions ≡ uploaded i ∷ [])
            ⊎ ((u.keep_files ≡ false) × (x.actions ≡ uploaded i ∷ removed ∷ []))))

-- Either nothing happens, or the file fits and is stored.
abbrev pub Fair : Option Bool → Uploader → Text → Outcome → Type 0
Fair fits u key x = Skipped x ⊎ ((fits ≡ some true) × Stored u key x)
