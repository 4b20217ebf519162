-- ===== src/Wsdriver/Connection/Violations.antt =====
-- Dead sessions and frames that are no commands, in `HandleConnection` of wsdriver/wsdriver.go.
use selenoid.Base.{
  ℕ, ◌≡◌, refl, ap, ◌∙◌, false, Option, none, some, List, [], ◌∷◌, ◌++◌, Text, codes, Bool-cases,
  inl, inr, All,
}
use selenoid.Wsdriver.Bytes.{IsByte}
use selenoid.Wsdriver.Message.{RequestMessage}
use selenoid.Wsdriver.Request.{Parsed, parse_request_v1, ParseError}
use selenoid.Wsdriver.Request.Format.{IsCommand, frame}
use selenoid.Wsdriver.Request.Sound.{parse_sound}
use selenoid.Wsdriver.HttpRequest.{HttpCall}
use selenoid.Wsdriver.Connection.{
  Setting, Round, Incoming, receive_failed, not_binary, binary, Action, send, send_close, request,
  serve, handle_connection, parsed, received, parse_error_text,
}

-- The requests to the WebDriver among the actions.
abbrev pub requests : List Action → List HttpCall
requests [] = []
requests (send bytes ∷ rest) = requests rest
requests (send_close code reason ∷ rest) = requests rest
requests (request c ∷ rest) = c ∷ requests rest

requests-append : (xs ys : List Action) → requests (xs ++ ys) ≡ requests xs ++ requests ys
requests-append [] ys = refl
requests-append (send bytes ∷ xs) ys = requests-append xs ys
requests-append (send_close code reason ∷ xs) ys = requests-append xs ys
requests-append (request c ∷ xs) ys = ap (λ l. c ∷ l) (requests-append xs ys)

parsed_dead :
    (setting : Setting) (round : Round) (p : Parsed)
    → round.alive ≡ false
    → requests (parsed setting round p).actions ≡ []
unfolding serve
parsed_dead setting round (m, none) dead = rw dead
parsed_dead setting round (m, some error) dead = refl

serve_dead :
    (setting : Setting) (round : Round) (m : RequestMessage) (incoming : Incoming)
    → round.alive ≡ false
    → requests (received setting round m incoming).actions ≡ []
unfolding serve
serve_dead setting round m receive_failed dead = refl
serve_dead setting round m not_binary dead = refl
serve_dead setting round m (binary bytes (some error)) dead = refl
serve_dead setting round m (binary bytes none) dead =
    parsed_dead setting round (parse_request_v1 bytes m) dead

-- Once the session is gone nothing reaches a WebDriver, whatever the client sends.
pub handle_connection_dead :
    (setting : Setting) (rounds : List Round) (m : RequestMessage)
    → All (λ round. round.alive ≡ false) rounds
    → requests (handle_connection setting rounds m) ≡ []
unfolding handle_connection serve
handle_connection_dead setting [] m dead = refl
handle_connection_dead setting (round ∷ rounds) m dead =
    let served = serve setting round m in
    let now : requests served.actions ≡ [] = serve_dead setting round m round.incoming dead.0 in
    let later = handle_connection_dead setting rounds served.message dead.1 in
    elim (Bool-cases served.goes_on) [
      | inl on ↦ rw on (
          requests-append served.actions (handle_connection setting rounds served.message)
          ∙ rw (now, later))
      | inr over ↦ rw over now
    ]

violation_text : Option ParseError → Text
violation_text none = []
violation_text (some error) = codes "Invalid message format: " ++ parse_error_text error

serve_binary :
    (setting : Setting) (round : Round) (old : RequestMessage) (bytes : List ℕ)
    → round.incoming ≡ binary bytes none
    → serve setting round old ≡ parsed setting round (parse_request_v1 bytes old)
unfolding serve
serve_binary setting round old bytes arrives = ap (received setting round old) arrives

parsed_violation :
    (setting : Setting) (round : Round) (p : Parsed) (rounds : List Round)
    → (¬ (p.1 ≡ none))
    → ((parsed setting round p).goes_on ≡ false)
      × ((parsed setting round p).actions ≡ send_close 1007 (violation_text p.1) ∷ [])
unfolding serve violation_text
parsed_violation setting round (m, none) rounds bad = absurd (bad refl)
parsed_violation setting round (m, some error) rounds bad = (refl, refl)

-- A binary frame that is no command, as the README demands it, ends the connection: the one action is a
-- close frame with code 1007, and whatever the client sends after it is not looked at.
pub handle_connection_violation :
    (setting : Setting) (round : Round) (rounds : List Round) (old : RequestMessage)
    (bytes : List ℕ)
    → round.incoming ≡ binary bytes none
    → All IsByte bytes
    → ((m : RequestMessage) → IsCommand m → ¬ (bytes ≡ frame m))
    → (reason : Text) × (handle_connection setting (round ∷ rounds) old
        ≡ send_close 1007 reason ∷ [])
unfolding handle_connection
handle_connection_violation setting round rounds old bytes arrives small foreign =
    let p = parse_request_v1 bytes old in
    let bad : ¬ (p.1 ≡ none) = λ e.
      let (command, same) = parse_sound bytes p.0 old small (λ i. (p.0, e i)) in
      foreign p.0 command same in
    let (over, actions) = parsed_violation setting round p rounds bad in
    (violation_text p.1, rw (serve_binary setting round old bytes arrives, over) actions)
