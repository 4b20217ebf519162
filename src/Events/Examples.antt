-- ===== src/Events/Examples.antt =====
-- A session with a video and a log, two uploaders, and the theorem about its end.
use selenoid.Base.{true, false, none, List, [], ◌∷◌, Text, codes}
use selenoid.Session.Caps.{CapsFields, no_caps, plain}
use selenoid.Session.Samples
use selenoid.Session.Store.{Session}
use selenoid.Upload.{Uploader}
use selenoid.Events.{S3Uploader}
use selenoid.Events.Closing.{Flags, Closing}

abbrev flags : Flags
flags = record {
  disable_docker = false;
  video_output_dir = codes "/opt/video";
  log_output_dir = codes "/opt/logs";
  save_all_logs = true;
  ggr_sum = none;
}

abbrev caps : CapsFields
caps = record no_caps {
  video = true;
  video_name = codes "selenoid0.mp4";
  log_name = codes "selenoid1.log";
}

abbrev session : Session
session = record selenoid.Session.Samples.session {
  caps = plain caps;
  url = record { host = codes "c1:4444"; path = [] };
}

abbrev archive : Uploader
archive = record {
  initialized = true;
  bucket_name = codes "videos";
  reduced_redundancy = false;
  key_pattern = codes "$fileName";
  include_files = [];
  exclude_files = [];
  keep_files = true;
  compression = codes "none";
}

abbrev bucket : Text → S3Uploader
bucket region = record {
  endpoint = codes "https://s3";
  region = region;
  access_key = [];
  secret_key = [];
  force_path_style = false;
  uploader = archive;
}

abbrev buckets : List S3Uploader
buckets = bucket (codes "eu") ∷ bucket (codes "us") ∷ []
