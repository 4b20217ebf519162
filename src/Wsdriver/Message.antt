-- ===== src/Wsdriver/Message.antt =====
-- wsdriver/ws_req.go, lines 9 to 87: the messages and their codes.
use selenoid.Base.{ℕ, zero, suc, Bool, List, Text, codes}

abbrev pub expected_message_version : ℕ
expected_message_version = 1

abbrev pub message_type_request : ℕ
message_type_request = 0

abbrev pub message_type_response : ℕ
message_type_response = 1

abbrev pub compression_none : ℕ
compression_none = 0

abbrev pub compression_gzip : ℕ
compression_gzip = 1

abbrev pub compression_zstd : ℕ
compression_zstd = 2

abbrev pub min_message_size : ℕ
min_message_size = 9

pub record Header : Type 0 where
  pub message_type : ℕ  -- 4 bits
  pub compression_type : ℕ  -- 2 bits
  pub is_json : Bool
  pub is_wsdriver_error : Bool

pub record RequestMessage : Type 0 where
  pub version : ℕ
  pub header : Header
  pub request_id : ℕ  -- uint32
  pub request_method : ℕ  -- uint16
  pub request_path : Text
  pub buffer : List ℕ

-- `methodNames` by `RequestMethod.String`
unfoldable pub method_name : ℕ → Text
method_name zero = codes "GET"
method_name (suc zero) = codes "HEAD"
method_name (suc (suc zero)) = codes "POST"
method_name (suc (suc (suc zero))) = codes "PUT"
method_name (suc (suc (suc (suc zero)))) = codes "DELETE"
method_name (suc (suc (suc (suc (suc zero))))) = codes "CONNECT"
method_name (suc (suc (suc (suc (suc (suc zero)))))) = codes "OPTIONS"
method_name (suc (suc (suc (suc (suc (suc (suc zero))))))) = codes "TRACE"
method_name (suc (suc (suc (suc (suc (suc (suc (suc zero)))))))) = codes "PATCH"
method_name _ = codes "UNKNOWN"
