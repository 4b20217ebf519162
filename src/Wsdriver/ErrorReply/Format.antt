-- ===== src/Wsdriver/ErrorReply/Format.antt =====
-- What a client of wsdriver/README.md, section 5.5, reads of the errors of wsdriver_errors.go.
use selenoid.Base.{ℕ, Bool, true, false, some, Text, ◌≡◌, ◌∙◌, refl}
use selenoid.Json.{JsonCodec}
use selenoid.Wsdriver.Bytes.{IsU16, IsU32}
use selenoid.Wsdriver.Codecs.{Codecs}
use selenoid.Wsdriver.Response.Format.{read_reply, read_fixed_part, inflate_none}
use selenoid.Wsdriver.ErrorReply.{error_object, write_error_message}

pub write_error_message-read_reply :
    (codecs : Codecs) (json : JsonCodec) (request_id : ℕ) (is_protocol_error : Bool) (status : ℕ)
    (name message : Text)
    → IsU32 request_id
    → IsU16 status
    → read_reply codecs (write_error_message json request_id is_protocol_error status name message)
      ≡ some (record {
        request_id = request_id;
        status = status;
        is_json = true;
        is_wsdriver_error = is_protocol_error;
        body = json.marshal (error_object name message);
      })
unfolding write_error_message
write_error_message-read_reply codecs json request_id true status name message hi hs =
    read_fixed_part codecs 19 request_id status _ refl hi hs ∙ rw inflate_none
write_error_message-read_reply codecs json request_id false status name message hi hs =
    read_fixed_part codecs 18 request_id status _ refl hi hs ∙ rw inflate_none
