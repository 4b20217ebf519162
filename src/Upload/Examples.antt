-- ===== src/Upload/Examples.antt =====
-- A log file that is uploaded, and the theorems about it.
use selenoid.Base.{true, false, some, codes, []}
use selenoid.Session.Samples.{session}
use selenoid.Upload.{Uploader, Answers, CreatedFile}

abbrev log_file : CreatedFile
log_file = record {
  session_id = codes "a1";
  session = session;
  name = codes "/logs/a1.log";
  file_type = codes "log";
}

abbrev uploader : Uploader
uploader = record {
  initialized = true;
  bucket_name = codes "videos";
  reduced_redundancy = false;
  key_pattern = codes "my files/$fileName";
  include_files = codes "*.log";
  exclude_files = [];
  keep_files = false;
  compression = codes "zstd";
}

abbrev answers : Answers
answers = record {
  type_by_extension = λ e. [];
  path_match = λ p n. some true;
  today = codes "2024-01-31";
  opens = true;
  compresses = true;
  uploads = true;
  removes = true;
}
