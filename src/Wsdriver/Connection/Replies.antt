-- ===== src/Wsdriver/Connection/Replies.antt =====
-- The replies of `HandleConnection` in wsdriver/wsdriver.go.
use selenoid.Base.{
  ℕ, ◌≡◌, refl, sym, ap, ◌∙◌, Bool, true, false, Option, none, some, List, [], ◌∷◌, ◌++◌, Text,
  arith, map, Bool-cases, inl, inr,
}
use mathlib.Core.Path.{subst}
use selenoid.Wsdriver.Bytes.{IsU16, IsU32}
use selenoid.Wsdriver.Codecs.{Codecs, IsLossless}
use selenoid.Wsdriver.Message.{RequestMessage}
use selenoid.Wsdriver.Request.Format.{IsCommand, frame, parse-frame}
use selenoid.Wsdriver.Response.{HttpResponse, Written, write_response}
use selenoid.Wsdriver.Response.Format.{Reply, read_reply, write_response-read_reply}
use selenoid.Wsdriver.ErrorReply.{
  write_error_message, write_http_request_error, write_construct_response_error,
  write_session_timed_out_error,
}
use selenoid.Wsdriver.ErrorReply.Format.{write_error_message-read_reply}
use selenoid.Wsdriver.HttpRequest.{HttpCall, Made, call, failed}
use selenoid.Wsdriver.Connection.{
  Setting, Round, binary, Outcome, responded, unreachable, Action, send, send_close, request,
  Served, serve, handle_connection, answer, outcome, forward, parsed, received, reply,
}

-- The binary messages among the actions.
abbrev pub sent : List Action → List (List ℕ)
sent [] = []
sent (send bytes ∷ rest) = bytes ∷ sent rest
sent (send_close code reason ∷ rest) = sent rest
sent (request c ∷ rest) = sent rest

sent-append : (xs ys : List Action) → sent (xs ++ ys) ≡ sent xs ++ sent ys
sent-append [] ys = refl
sent-append (send bytes ∷ xs) ys = ap (λ l. bytes ∷ l) (sent-append xs ys)
sent-append (send_close code reason ∷ xs) ys = sent-append xs ys
sent-append (request c ∷ xs) ys = sent-append xs ys

abbrev id_of : Option Reply → Option ℕ
id_of none = none
id_of (some r) = some r.request_id

-- The id of the command that a message answers, as the client reads it.
abbrev pub reply_id : Codecs → List ℕ → Option ℕ
reply_id codecs bytes = id_of (read_reply codecs bytes)

-- What the setting has to offer.
pub record IsSound (setting : Setting) : Type 0 where
  pub gzip_lossless : IsLossless setting.codecs.gzip
  pub zstd_lossless : IsLossless setting.codecs.zstd

-- The WebDriver answers with statuses of 16 bits.
abbrev pub HasStatuses : Round → Type 0
HasStatuses round =
    (c : HttpCall) (response : HttpResponse)
    → round.upstream c ≡ responded response
    → IsU16 response.status_code

-- One message is sent, for the command, and the loop goes on with the command's message.
record Answered (setting : Setting) (m : RequestMessage) (served : Served) : Type 0 where
  bytes : List ℕ
  one_sent : sent served.actions ≡ bytes ∷ []
  same_id : reply_id setting.codecs bytes ≡ some m.request_id
  continues : served.goes_on ≡ true

module _ (setting : Setting) (sound : IsSound setting) (round : Round) (m : RequestMessage)
    (id_fits : IsU32 m.request_id) (writable : round.writable ≡ true) where
  error_id :
      (is_protocol_error : Bool) (status : ℕ) (name message : Text)
      → IsU16 status
      → reply_id setting.codecs
          (write_error_message setting.json m.request_id is_protocol_error status name message)
        ≡ some m.request_id
  error_id is_protocol_error status name message fits = ap id_of (
      write_error_message-read_reply setting.codecs setting.json m.request_id is_protocol_error
        status name message id_fits fits)

  reply-Answered :
      (before : List Action) (bytes : List ℕ)
      → sent before ≡ []
      → reply_id setting.codecs bytes ≡ some m.request_id
      → Answered setting m (reply round m before bytes)
  reply-Answered before bytes quiet e = record {
    bytes = bytes;
    one_sent = sent-append before (send bytes ∷ []) ∙ rw quiet;
    same_id = e;
    continues = writable;
  }

  answer-Answered :
      (c : HttpCall) (response : HttpResponse) (w : Written)
      → IsU16 response.status_code
      → write_response setting.codecs response m.request_id setting.client ≡ w
      → Answered setting m (answer setting round m (request c ∷ []) w)
  unfolding serve write_construct_response_error
  answer-Answered c response (bytes, none) fits e = reply-Answered (request c ∷ []) bytes refl (
      ap id_of (
        write_response-read_reply setting.codecs response m.request_id setting.client bytes
          sound.gzip_lossless sound.zstd_lossless id_fits fits e))
  answer-Answered c response (bytes, some error) fits e =
      reply-Answered (request c ∷ []) _ refl (error_id true 500 _ _ (omega arith))

  outcome-Answered :
      (c : HttpCall) (o : Outcome)
      → ((response : HttpResponse) → o ≡ responded response → IsU16 response.status_code)
      → Answered setting m (outcome setting round m c o)
  unfolding serve write_http_request_error
  outcome-Answered c (responded response) fits =
      answer-Answered c response _ (fits response refl) refl
  outcome-Answered c (unreachable error) fits =
      reply-Answered (request c ∷ []) _ refl (error_id true 500 _ _ (omega arith))

  forward-Answered :
      (made : Made) → HasStatuses round → Answered setting m (forward setting round m made)
  unfolding serve write_http_request_error
  forward-Answered (call c) fits = outcome-Answered c (round.upstream c) (fits c)
  forward-Answered (failed error) fits =
      reply-Answered [] _ refl (error_id true 500 _ _ (omega arith))

  -- A command that arrives whole is answered, whether the session is alive or not.
  parsed-Answered : HasStatuses round → Answered setting m (parsed setting round (m, none))
  unfolding serve write_session_timed_out_error
  parsed-Answered fits = elim (Bool-cases round.alive) [
    | inl alive ↦ rw alive (forward-Answered _ fits)
    | inr dead ↦ rw dead (reply-Answered [] _ refl (error_id false 404 _ _ (omega arith)))
  ]

-- A round in which the client's command `m` arrives and the reply can be written.
pub record Brings (m : RequestMessage) (round : Round) : Type 0 where
  pub is_command : IsCommand m
  pub arrives : round.incoming ≡ binary (frame m) none
  pub writable : round.writable ≡ true
  pub statuses : HasStatuses round

serve-Answered :
    (setting : Setting)
    → IsSound setting
    → (round : Round) (m old : RequestMessage) → Brings m round
    → Answered setting m (serve setting round old)
unfolding serve
serve-Answered setting sound round m old b =
    let whole : received setting round old round.incoming ≡ parsed setting round (m, none) =
      ap (received setting round old) b.arrives
      ∙ ap (parsed setting round) (parse-frame m old b.is_command) in
    subst (Answered setting m) (sym whole)
      (parsed-Answered setting sound round m b.is_command.id_fits b.writable b.statuses)

-- The rounds bring the commands, one each.
abbrev pub Bring : List RequestMessage → List Round → Type 0
Bring [] [] = Unit {0}
Bring (m ∷ ms) (round ∷ rounds) = Brings m round × Bring ms rounds
Bring _ _ = ⊥

-- Every command gets exactly one reply, in the order of the commands, with the command's own id:
-- whatever the WebDriver answers, fails to answer or answers too late, and whatever the compressors do.
-- Conditions: each round brings a whole command, the reply can be written, and the setting is sound.
pub handle_connection_replies :
    (setting : Setting)
    → IsSound setting
    → (ms : List RequestMessage) (rounds : List Round) (old : RequestMessage) → Bring ms rounds
    → map (reply_id setting.codecs) (sent (handle_connection setting rounds old))
      ≡ map (λ m. some m.request_id) ms
unfolding handle_connection
handle_connection_replies setting sound [] [] old b = refl
handle_connection_replies setting sound [] (round ∷ rounds) old b = absurd b
handle_connection_replies setting sound (m ∷ ms) [] old b = absurd b
handle_connection_replies setting sound (m ∷ ms) (round ∷ rounds) old b =
    let a = serve-Answered setting sound round m old b.0 in
    let rest = handle_connection setting rounds (serve setting round old).message in
    rw (
      a.continues,
      sent-append (serve setting round old).actions rest,
      a.one_sent,
      a.same_id,
      handle_connection_replies setting sound ms rounds (serve setting round old).message b.1,
    )
