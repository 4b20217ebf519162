-- ===== src/Jsonerror.antt =====
-- jsonerror/jsonerror.go: the errors that are answered as JSON.
use selenoid.Base.{ℕ, ◌++◌, Text, codes}
use selenoid.Json.{Json, str, obj, field, end}

pub record SeleniumError : Type 0 where
  pub name : Text
  pub err : Text
  pub status : ℕ

-- `Error`
pub error : SeleniumError → Text
error se = se.name ++ (codes ": " ++ se.err)

pub new_selenium_error : Text → Text → ℕ → SeleniumError
new_selenium_error name err status = record { name = name; err = err; status = status }

pub invalid_argument : Text → SeleniumError
unfolding new_selenium_error
invalid_argument err = new_selenium_error (codes "invalid argument") err 400

pub invalid_session_id : Text → SeleniumError
unfolding new_selenium_error
invalid_session_id err = new_selenium_error (codes "invalid session id") err 404

pub session_not_created : Text → SeleniumError
unfolding new_selenium_error
session_not_created err = new_selenium_error (codes "session not created") err 500

pub unknown_error : Text → SeleniumError
unfolding new_selenium_error
unknown_error err = new_selenium_error (codes "unknown error") err 500

pub too_many_requests : Text → SeleniumError
unfolding new_selenium_error
too_many_requests err = new_selenium_error (codes "too many requests") err 429

-- What a handler writes: the content type that it sets, the status and the body.
pub record JsonResponse : Type 0 where
  pub content_type : Text
  pub status : ℕ
  pub body : Json

-- `Encode`
pub encode : SeleniumError → JsonResponse
encode se = record {
  content_type = codes "application/json; charset=utf-8";
  status = se.status;
  body = obj (
      field (codes "value")
        (obj (field (codes "error") (str se.name) (field (codes "message") (str se.err) end))) end);
}
