-- ===== src/Upload.antt =====
-- upload/s3.go: which files are uploaded, under which key, and what happens to them.
pub mod Key
pub mod Files
mod Examples
use selenoid.Base.{
  ℕ, zero, suc, ◌+◌, ◌-◌, Bool, true, false, not, ◌&&◌, Option, none, some, List, [], ◌∷◌, ◌++◌,
  Text, codes, text_eq, has_prefix, length, leb, ◌==◌, if◌then◌else◌,
}
use selenoid.Paths.{slash, split}
use selenoid.Session.Caps.{Caps, fields, browser_name}
use selenoid.Session.Store.{Session}

-- `strings.ToLower` on ASCII.
lower_code : ℕ → ℕ
lower_code c = if leb b'A' c && leb c b'Z' then c + 32 else c

to_lower : Text → Text
unfolding lower_code
to_lower [] = []
to_lower (c ∷ s) = lower_code c ∷ to_lower s

-- `strings.Replace(s, old, new, -1)` for an old text that is not empty; `skip` are the bytes of an old
-- text that was replaced.
replace_from : Text → Text → ℕ → Text → Text
replace_from old new skip [] = []
replace_from old new (suc skip) (c ∷ s) = replace_from old new skip s
replace_from old new zero (c ∷ s) =
    let behind = replace_from old new (length old - 1) s in
    let next = replace_from old new zero s in
    if has_prefix (c ∷ s) old then new ++ behind else c ∷ next

pub replace_all : Text → Text → Text → Text
unfolding replace_from
replace_all old new s = replace_from old new zero s

-- `filepath.Base`: the last fragment that is not empty.
last_fragment : Text → List Text → Text
last_fragment d [] = d
last_fragment d ([] ∷ fs) = last_fragment d fs
last_fragment d ((c ∷ f) ∷ fs) = last_fragment (c ∷ f) fs

pub base : Text → Text
unfolding last_fragment
base [] = codes "."
base (c ∷ p) = last_fragment (slash ∷ []) (split (c ∷ p))

-- `filepath.Ext`: from the last dot on, if no slash follows it.
ext_from : Text → Text → Text
ext_from found [] = found
ext_from found (c ∷ s) =
    if c == slash then ext_from [] s else if c == b'.' then ext_from (c ∷ s) s else ext_from found s

pub ext : Text → Text
unfolding ext_from
ext s = ext_from [] s

-- `event.CreatedFile`
pub record CreatedFile : Type 0 where
  pub session_id : Text
  pub session : Session
  pub name : Text
  pub file_type : Text

pattern_of : Text → Text → Text
pattern_of key_pattern [] = key_pattern
pattern_of key_pattern (c ∷ own) = c ∷ own

-- The placeholders, in the order in which they are replaced; `today` is the date.
pub filled : Text → Text → CreatedFile → Text
unfolding replace_all to_lower base ext pattern_of
filled key_pattern today f =
    let caps = fields f.session.caps in
    let pt = pattern_of key_pattern caps.s3_key_pattern in
    let named = replace_all (codes "$fileName") (base f.name) pt in
    let extended = replace_all (codes "$fileExtension") (to_lower (ext f.name)) named in
    let browser =
      replace_all (codes "$browserName") (to_lower (browser_name f.session.caps)) extended in
    let version = replace_all (codes "$browserVersion") (to_lower caps.version) browser in
    let platform = replace_all (codes "$platformName") (to_lower caps.platform) version in
    let quota = replace_all (codes "$quota") (to_lower f.session.quota) platform in
    let session = replace_all (codes "$sessionId") f.session_id quota in
    let typed = replace_all (codes "$fileType") (to_lower f.file_type) session in
    replace_all (codes "$date") today typed

-- `GetS3Key`
pub get_s3_key : Text → Text → CreatedFile → Text
get_s3_key key_pattern today f = replace_all (codes " ") (codes "-") (filled key_pattern today f)

-- `path_match` stands for `filepath.Match`: none is a bad pattern. An empty pattern matches as `default`
-- says.
match_or : (Text → Text → Option Bool) → Bool → Text → Text → Option Bool
match_or path_match default [] name = some default
match_or path_match default (c ∷ p) name = path_match (c ∷ p) name

both : Option Bool → Option Bool → Option Bool
both none fe = none
both (some fi) none = none
both (some fi) (some fe) = some (fi && not fe)

-- `FileMatches`: none is an error.
pub file_matches : (Text → Text → Option Bool) → Text → Text → Text → Option Bool
unfolding match_or both
file_matches path_match included excluded filename =
    both (match_or path_match true included (base filename))
      (match_or path_match false excluded (base filename))

pub record Uploader : Type 0 where
  pub initialized : Bool  -- there is a manager
  pub bucket_name : Text
  pub reduced_redundancy : Bool
  pub key_pattern : Text
  pub include_files : Text
  pub exclude_files : Text
  pub keep_files : Bool
  pub compression : Text

-- What files and S3 answer; `type_by_extension` stands for `mime.TypeByExtension`, where no type is empty.
pub record Answers : Type 0 where
  pub type_by_extension : Text → Text
  pub path_match : Text → Text → Option Bool
  pub today : Text
  pub opens : Bool
  pub compresses : Bool
  pub uploads : Bool
  pub removes : Bool

-- `s3manager.UploadInput`; the body is the file, or its bytes after compression.
pub record UploadInput : Type 0 where
  pub bucket : Text
  pub key : Text
  pub body_compressed : Bool
  pub content_type : Option Text
  pub content_encoding : Option Text
  pub storage_class : Option Text

pub data Action : Type 0 where
  uploaded : UploadInput → Action
  removed : Action

-- The Boolean and the error of the result.
pub record Outcome : Type 0 where
  pub actions : List Action
  pub was_uploaded : Bool
  pub is_error : Bool

nothing : Bool → Outcome
nothing is_error = record { actions = []; was_uploaded = false; is_error = is_error }

is_compressed : Uploader → CreatedFile → Bool
is_compressed u f = text_eq u.compression (codes "zstd") && text_eq f.file_type (codes "log")

non_empty : Text → Option Text
non_empty [] = none
non_empty (c ∷ t) = some (c ∷ t)

pub upload_input : Uploader → Answers → CreatedFile → Text → UploadInput
unfolding is_compressed non_empty ext
upload_input u o f key =
    let compressed = is_compressed u f in
    record {
      bucket = u.bucket_name;
      key = key;
      body_compressed = compressed;
      content_type =
          if compressed
          then some (codes "text/plain; charset=utf-8")
          else non_empty (o.type_by_extension (ext f.name));
      content_encoding = if compressed then some (codes "zstd") else none;
      storage_class = if u.reduced_redundancy then some (codes "REDUCED_REDUNDANCY") else none;
    }

-- What follows an upload.
removed_after : Bool → Bool → UploadInput → Outcome
removed_after true removes i = record {
  actions = uploaded i ∷ [];
  was_uploaded = true;
  is_error = false;
}
removed_after false true i = record {
  actions = uploaded i ∷ removed ∷ [];
  was_uploaded = true;
  is_error = false;
}
removed_after false false i = record {
  actions = uploaded i ∷ [];
  was_uploaded = true;
  is_error = true;
}

sent_as : Uploader → Answers → UploadInput → Outcome
unfolding nothing removed_after
sent_as u o i = if not o.uploads then nothing true else removed_after u.keep_files o.removes i

matched : Uploader → Answers → CreatedFile → Option Bool → Outcome
unfolding sent_as nothing is_compressed upload_input
matched u o f none = nothing true
matched u o f (some false) = nothing false
matched u o f (some true) =
    if not o.opens
    then nothing true
    else if is_compressed u f && not o.compresses
    then nothing true
    else sent_as u o (upload_input u o f (get_s3_key u.key_pattern o.today f))

-- `Upload`
pub upload : Uploader → Answers → CreatedFile → Outcome
unfolding matched nothing
upload u o f =
    if u.initialized
    then matched u o f (file_matches o.path_match u.include_files u.exclude_files f.name)
    else nothing true
