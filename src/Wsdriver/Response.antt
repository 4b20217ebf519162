-- ===== src/Wsdriver/Response.antt =====
-- wsdriver/ws_res.go: an HTTP response as a message to the client.
pub mod Format
mod Examples
use Prim.Native.Nat.{bit_or}
use selenoid.Base.{
  ℕ, ◌%◌, Bool, true, false, Option, none, some, List, [], ◌∷◌, ◌++◌, Text, codes, has_prefix,
  length, ltb, if◌then◌else◌,
}
use selenoid.Wsdriver.Bytes.{put_uint16, put_uint32}
use selenoid.Wsdriver.Codecs.{Codecs}

abbrev pub compression_threshold_bytes : ℕ
compression_threshold_bytes = 1024

-- wsdriver.go, `SupportedEncoding`
pub record SupportedEncoding : Type 0 where
  pub is_gzip_supported : Bool
  pub is_zstd_supported : Bool

-- What the code reads of an `http.Response`: the status, the header `Content-Type`, what copying
-- the body yields, and the error of closing it.
pub record HttpResponse : Type 0 where
  pub status_code : ℕ
  pub content_type : Text
  pub body : List ℕ
  pub read_error : Option Text
  pub close_error : Option Text

pub data Compression : Type 0 where
  plain gzip zstd : Compression

-- The buffer that is left, and the error.
abbrev pub Written : Type 0
Written = List ℕ × Option Text

-- Lines 55 to 63: the encoding, when the body is long enough to be worth it.
pub compression_for : ℕ → SupportedEncoding → Compression
compression_for size client =
    if ltb compression_threshold_bytes size
    then if client.is_zstd_supported then zstd else if client.is_gzip_supported then gzip else plain
    else plain

-- `header |= uint8(c) << 2`
or_compression : ℕ → Compression → ℕ
or_compression header plain = header
or_compression header gzip = bit_or header 4
or_compression header zstd = bit_or header 8

pub header_for : Compression → Text → ℕ
unfolding or_compression
header_for c content_type =
    let header = or_compression 16 c in
    if has_prefix content_type (codes "application/json") then bit_or header 2 else header

-- What stands before the body: version, header, request id, status and an empty path.
pub fixed_part : ℕ → ℕ → ℕ → List ℕ
fixed_part header request_id status =
    1 ∷ header ∷ (put_uint32 request_id ++ (put_uint16 (status % 65536) ++ (0 ∷ [])))

append_to : List ℕ → Written → Written
append_to ws (bytes, error) = (ws ++ bytes, error)

-- Lines 78 to 105.
write_body : Codecs → Compression → List ℕ → List ℕ → Written
unfolding append_to
write_body codecs gzip ws body = append_to ws (codecs.gzip.compress body)
write_body codecs zstd ws body = append_to ws (codecs.zstd.compress body)
write_body codecs plain ws body = append_to ws (body, none)

after_read : Codecs → HttpResponse → ℕ → SupportedEncoding → Option Text → Option Text → Written
after_read codecs response request_id client (some error) closed = ([], some error)
after_read codecs response request_id client none (some error) = ([], some error)
after_read codecs response request_id client none none =
    let c = compression_for (length response.body) client in
    write_body codecs c
      (fixed_part (header_for c response.content_type) request_id response.status_code)
      response.body

pub write_response : Codecs → HttpResponse → ℕ → SupportedEncoding → Written
unfolding compression_for header_for fixed_part write_body after_read
write_response codecs response request_id client =
    after_read codecs response request_id client response.read_error response.close_error
