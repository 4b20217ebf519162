-- ===== src/Wsdriver/Samples.antt =====
-- Concrete compressors, JSON encoder and messages, to run the package on.
use selenoid.Base.{ℕ, ap, sym, true, false, none, some, Option, codes, List, [], ◌∷◌, Text}
use selenoid.Json.{JsonCodec, null}
use selenoid.Wsdriver.Codecs.{Compressor, Codecs, IsLossless}
use selenoid.Wsdriver.Message.{RequestMessage}

-- A compressor that marks its output, and rejects what bears no mark.
abbrev unmark : ℕ → List ℕ → List ℕ × Option Text
unmark mark [] = ([], some (codes "EOF"))
unmark mark (b ∷ rest) = (rest, none)

abbrev marking : ℕ → Compressor
marking mark = record { compress = λ body. (mark ∷ body, none); decompress = unmark mark }

pub marking-IsLossless : (mark : ℕ) → IsLossless (marking mark)
marking-IsLossless mark body packed e = cc (ap (λ x. unmark mark x.0) (sym e))

abbrev pub sample_codecs : Codecs
sample_codecs = record { gzip = marking 31; zstd = marking 40 }

abbrev pub sample_json : JsonCodec
sample_json = record { marshal = λ j. 123 ∷ 125 ∷ []; unmarshal = λ bytes. some null }

abbrev pub blank : RequestMessage
blank = record {
  version = 0;
  header = record {
    message_type = 0;
    compression_type = 0;
    is_json = false;
    is_wsdriver_error = false;
  };
  request_id = 0;
  request_method = 0;
  request_path = [];
  buffer = [];
}

-- `POST url` with two bytes of body, compressed by zstd.
abbrev pub post_url : RequestMessage
post_url = record {
  version = 1;
  header = record {
    message_type = 0;
    compression_type = 2;
    is_json = true;
    is_wsdriver_error = false;
  };
  request_id = 70000;
  request_method = 2;
  request_path = codes "url";
  buffer = 40 ∷ 123 ∷ 125 ∷ [];
}

abbrev pub post_url_bytes : List ℕ
post_url_bytes = 1 ∷ 10 ∷ 0 ∷ 1 ∷ 17 ∷ 112 ∷ 0 ∷ 2 ∷ 117 ∷ 114 ∷ 108 ∷ 0 ∷ 40 ∷ 123 ∷ 125 ∷ []
