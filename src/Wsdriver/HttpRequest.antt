-- ===== src/Wsdriver/HttpRequest.antt =====
-- wsdriver/http_req.go: a command as a request to the WebDriver of the session.
use selenoid.Base.{ℕ, Bool, Option, none, some, List, ◌∷◌, ◌++◌, Text, codes, ◌==◌, if◌then◌else◌}
use selenoid.Wsdriver.Message.{RequestMessage, method_name, compression_gzip, compression_zstd}
use selenoid.Wsdriver.Codecs.{Codecs}

-- The request that `httpClient.Do` is given.
pub record HttpCall : Type 0 where
  pub method : Text
  pub url : Text
  pub content_type : Option Text
  pub body : List ℕ

pub data Made : Type 0 where
  call : HttpCall → Made
  failed : Text → Made

-- What a reader yields: a body, or an error.
abbrev body_of : List ℕ × Option Text → (List ℕ → Made) → Made
body_of (body, none) k = k body
body_of (body, some error) k = failed error

-- `http.NewRequest` fails on a method or a URL that it cannot parse: a parameter, as the URL is the
-- client's text.
new_request : (Text → Text → Option Text) → Text → Text → Bool → List ℕ → Made
new_request refuses method url is_json body = elim (refuses method url) [
  | some error ↦ failed error
  | none ↦ call (record {
    method = method;
    url = url;
    content_type = if is_json then some (codes "application/json; charset=utf-8") else none;
    body = body;
  })
]

pub make_request : Codecs → (Text → Text → Option Text) → Text → RequestMessage → Made
unfolding new_request
make_request codecs refuses session_url m =
    let send =
      new_request refuses (method_name m.request_method) (session_url ++ (b'/' ∷ m.request_path))
        m.header.is_json in
    if m.header.compression_type == compression_gzip
    then body_of (codecs.gzip.decompress m.buffer) send
    else if m.header.compression_type == compression_zstd
    then body_of (codecs.zstd.decompress m.buffer) send
    else send m.buffer
