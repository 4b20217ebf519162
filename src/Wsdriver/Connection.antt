-- ===== src/Wsdriver/Connection.antt =====
-- wsdriver/wsdriver.go, `HandleConnection`: the loop over one WebSocket.
pub mod Replies
pub mod Violations
mod Examples
use selenoid.Base.{
  ℕ, ◌+◌, ◌≡◌, Bool, true, false, Option, none, some, List, [], ◌∷◌, ◌++◌, Text, codes, ◌==◌,
  if◌then◌else◌, decimal,
}
use selenoid.Json.{JsonCodec}
use selenoid.Wsdriver.Codecs.{Codecs}
use selenoid.Wsdriver.Message.{
  RequestMessage, expected_message_version, message_type_request, min_message_size,
}
use selenoid.Wsdriver.Request.{ParseError, Parsed, parse_request_v1}
use selenoid.Wsdriver.Response.{HttpResponse, SupportedEncoding, Written, write_response}
use selenoid.Wsdriver.ErrorReply.{
  write_session_timed_out_error, write_http_request_error, write_construct_response_error,
}
use selenoid.Wsdriver.HttpRequest.{HttpCall, Made, call, failed, make_request}

-- `err.Error()` of what `ParseRequestV1` returns.
pub parse_error_text : ParseError → Text
parse_error_text (ParseError.too_short n) =
    codes "message too short: "
    ++ (decimal n ++ (codes " bytes, minimum " ++ decimal min_message_size))
parse_error_text (ParseError.invalid_version v) =
    codes "invalid message version. Expected '"
    ++ (decimal expected_message_version ++ (codes "', got '" ++ (decimal v ++ codes "'")))
parse_error_text (ParseError.invalid_type t) =
    codes "invalid message type. Expected '"
    ++ (decimal message_type_request ++ (codes "', got '" ++ (decimal t ++ codes "'")))
parse_error_text (ParseError.unsupported_compression c) =
    codes "unsupported compression type. Expected 0-2, got '" ++ (decimal c ++ codes "'")
parse_error_text (ParseError.invalid_method m) =
    codes "invalid request method. Expected 0-8, got '" ++ (decimal m ++ codes "'")
parse_error_text ParseError.no_terminator = codes "no null terminator found in url-path"
parse_error_text ParseError.empty_path = codes "unexpected empty request path"
parse_error_text ParseError.invalid_path_start =
    codes "invalid request path. It can't start with '.' or '/'"

-- What `ws.NextReader` and the reader yield: an error, a frame that is not binary, or a binary frame
-- with the bytes read and the error of reading.
pub data Incoming : Type 0 where
  receive_failed : Incoming
  not_binary : Incoming
  binary : List ℕ → Option Text → Incoming

pub data Outcome : Type 0 where
  responded : HttpResponse → Outcome
  unreachable : Text → Outcome

-- What the environment does in one round of the loop: the frame, the answer of `isSessionAliveFn`, the
-- WebDriver behind `httpClient.Do`, and whether `ws.WriteMessage` succeeds.
pub record Round : Type 0 where
  pub incoming : Incoming
  pub alive : Bool
  pub upstream : HttpCall → Outcome
  pub writable : Bool

-- What the loop does to the world, in order.
pub data Action : Type 0 where
  send : List ℕ → Action
  send_close : ℕ → Text → Action
  request : HttpCall → Action

-- The actions of one round, whether the loop goes on, and the message that the next round reuses.
pub record Served : Type 0 where
  pub actions : List Action
  pub goes_on : Bool
  pub message : RequestMessage

-- Nothing of this changes on a connection.
pub record Setting : Type 0 where
  pub codecs : Codecs
  pub json : JsonCodec
  pub refuses : Text → Text → Option Text
  pub session_url : Text
  pub client : SupportedEncoding

-- `ws.WriteMessage(websocket.BinaryMessage, …)`: the loop goes on if it succeeds.
abbrev reply : Round → RequestMessage → List Action → List ℕ → Served
reply round m before bytes = record {
  actions = before ++ (send bytes ∷ []);
  goes_on = round.writable;
  message = m;
}

-- From line 121 on.
answer : Setting → Round → RequestMessage → List Action → Written → Served
answer setting round m before (bytes, none) = reply round m before bytes
answer setting round m before (bytes, some error) =
    reply round m before (write_construct_response_error setting.json m.request_id (some error))

outcome : Setting → Round → RequestMessage → HttpCall → Outcome → Served
outcome setting round m c (responded response) =
    answer setting round m (request c ∷ [])
      (write_response setting.codecs response m.request_id setting.client)
outcome setting round m c (unreachable error) =
    reply round m (request c ∷ []) (write_http_request_error setting.json m.request_id (some error))

-- From line 110 on.
forward : Setting → Round → RequestMessage → Made → Served
forward setting round m (call c) = outcome setting round m c (round.upstream c)
forward setting round m (failed error) =
    reply round m [] (write_http_request_error setting.json m.request_id (some error))

-- From line 87 on.
parsed : Setting → Round → Parsed → Served
parsed setting round (m, some error) = record {
  actions = send_close 1007 (codes "Invalid message format: " ++ parse_error_text error) ∷ [];
  goes_on = false;
  message = m;
}
parsed setting round (m, none) =
    if round.alive
    then forward setting round m (make_request setting.codecs setting.refuses setting.session_url m)
    else reply round m [] (write_session_timed_out_error setting.json m.request_id)

received : Setting → Round → RequestMessage → Incoming → Served
received setting round m receive_failed = record { actions = []; goes_on = false; message = m }
received setting round m not_binary = record {
  actions = send_close 1003 (codes "WsDriver protocol only accepts binary data") ∷ [];
  goes_on = false;
  message = m;
}
received setting round m (binary bytes (some error)) = record {
  actions = [];
  goes_on = false;
  message = m;
}
received setting round m (binary bytes none) = parsed setting round (parse_request_v1 bytes m)

pub serve : Setting → Round → RequestMessage → Served
unfolding received parsed forward outcome answer
serve setting round m = received setting round m round.incoming

-- The loop, over the rounds that the environment offers.
pub handle_connection : Setting → List Round → RequestMessage → List Action
handle_connection setting [] m = []
handle_connection setting (round ∷ rounds) m =
    let served = serve setting round m in
    let rest = handle_connection setting rounds served.message in
    if served.goes_on then served.actions ++ rest else served.actions
