-- ===== src/Wsdriver/Request.antt =====
-- wsdriver/ws_req.go, `ParseRequestV1`.
pub mod Format
pub mod Sound
mod Examples
use Prim.Native.Nat.{bit_and}
use selenoid.Base.{
  ℕ, ◌+◌, ◌/◌, Bool, true, false, ◌||◌, not, Option, none, some, List, ltb, ◌==◌, if◌then◌else◌,
  length, drop,
}
use selenoid.Wsdriver.Bytes.{byte_at, slice, uint16, uint32, index_byte}
use selenoid.Wsdriver.Message.{
  RequestMessage, Header, min_message_size, expected_message_version, message_type_request,
}

pub data ParseError : Type 0 where
  too_short : ℕ → ParseError
  invalid_version : ℕ → ParseError
  invalid_type : ℕ → ParseError
  unsupported_compression : ℕ → ParseError
  invalid_method : ℕ → ParseError
  no_terminator : ParseError
  empty_path : ParseError
  invalid_path_start : ParseError

-- The message that is filled in, and the error. The caller's message is changed field by field, so
-- a failure leaves it half filled.
abbrev pub Parsed : Type 0
Parsed = RequestMessage × Option ParseError

abbrev fail : ParseError → RequestMessage → Parsed
fail e req = (req, some e)

-- From line 123 on: the path and what follows it.
parse_buffer : List ℕ → ℕ → RequestMessage → Parsed
parse_buffer bytes path_length req =
    if byte_at req.request_path 0 == b'.' || byte_at req.request_path 0 == b'/'
    then fail invalid_path_start req
    else (record req { buffer = drop (9 + path_length) bytes }, none)

parse_path : List ℕ → RequestMessage → Option ℕ → Parsed
parse_path bytes req none = fail no_terminator req
parse_path bytes req (some n) =
    if n == 0
    then fail empty_path req
    else parse_buffer bytes n (record req { request_path = slice bytes 8 (8 + n) })

-- From line 116 on.
parse_method : List ℕ → RequestMessage → Parsed
parse_method bytes req =
    let method = uint16 bytes 6 in
    let filled = record req { request_id = uint32 bytes 2; request_method = method } in
    if ltb 8 method
    then fail (invalid_method method) filled
    else parse_path bytes filled (index_byte (drop 8 bytes) 0)

-- `[MsgType(4) | CompType(2) | IsJSON | IsWdError]`
pub header_of : ℕ → Header
header_of h = record {
  message_type = bit_and (h / 16) 0x0f;
  compression_type = bit_and (h / 4) 0x03;
  is_json = not (bit_and (h / 2) 0x01 == 0);
  is_wsdriver_error = not (bit_and h 0x01 == 0);
}

-- From line 101 on.
parse_header : List ℕ → RequestMessage → Parsed
parse_header bytes req =
    let filled = record req { header = header_of (byte_at bytes 1) } in
    if not (filled.header.message_type == message_type_request)
    then fail (invalid_type filled.header.message_type) filled
    else if ltb 2 filled.header.compression_type
    then fail (unsupported_compression filled.header.compression_type) filled
    else parse_method bytes filled

pub parse_request_v1 : List ℕ → RequestMessage → Parsed
unfolding parse_buffer parse_path parse_method header_of parse_header
parse_request_v1 bytes req =
    if ltb (length bytes) min_message_size
    then fail (too_short (length bytes)) req
    else let filled = record req { version = byte_at bytes 0 } in
      if not (filled.version == expected_message_version)
      then fail (invalid_version filled.version) filled
      else parse_header bytes filled
