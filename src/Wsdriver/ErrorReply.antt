-- ===== src/Wsdriver/ErrorReply.antt =====
-- wsdriver/wsdriver_errors.go: errors as messages to the client.
pub mod Format
mod Examples
use selenoid.Base.{
  ℕ, Bool, true, false, Option, none, some, List, [], ◌++◌, Text, codes, if◌then◌else◌,
}
use selenoid.Json.{Json, str, obj, end, field, JsonCodec}
use selenoid.Wsdriver.Response.{fixed_part}

-- `map[string]interface{}{"value": map[string]string{...}}`
pub error_object : Text → Text → Json
error_object name message = obj (
    field (codes "value")
      (obj (field (codes "error") (str name) (field (codes "message") (str message) end))) end)

-- A response, not compressed, in JSON; the lowest bit marks a failure of the protocol itself.
unfoldable pub write_error_message : JsonCodec → ℕ → Bool → ℕ → Text → Text → List ℕ
write_error_message json request_id is_protocol_error status_code name message =
    fixed_part (if is_protocol_error then 19 else 18) request_id status_code
    ++ json.marshal (error_object name message)

unfoldable pub write_session_timed_out_error : JsonCodec → ℕ → List ℕ
write_session_timed_out_error json request_id =
    write_error_message json request_id false 404 (codes "invalid session id")
      (codes "session timed out or not found")

-- `errMsg += " Cause: " + err.Error()`
with_cause : Text → Option Text → Text
with_cause message none = message
with_cause message (some cause) = message ++ (codes " Cause: " ++ cause)

unfoldable pub write_http_request_error : JsonCodec → ℕ → Option Text → List ℕ
unfolding with_cause
write_http_request_error json request_id error =
    write_error_message json request_id true 500 (codes "wsdriver protocol error")
      (with_cause (codes "couldn't send request to webdriver.") error)

unfoldable pub write_construct_response_error : JsonCodec → ℕ → Option Text → List ℕ
unfolding with_cause
write_construct_response_error json request_id error =
    write_error_message json request_id true 500 (codes "wsdriver protocol error")
      (with_cause (codes "couldn't construct wsdriver response.") error)
