-- ===== src/Wsdriver/Connection/Examples.antt =====
-- Connections on which a command is answered, a session is gone, and a frame is no command.
use selenoid.Base.{◌≡◌, refl, true, false, none, some, codes, [], ◌∷◌, map, arith}
use selenoid.Wsdriver.Request.Format.{IsCommand, frame}
use selenoid.Wsdriver.Samples.{sample_codecs, sample_json, marking-IsLossless, blank, post_url}
use selenoid.Wsdriver.Response.{HttpResponse}
use selenoid.Wsdriver.Connection.{Setting, Round, binary, responded, unreachable, handle_connection}
use selenoid.Wsdriver.Connection.Replies.{
  IsSound, Brings, sent, reply_id, handle_connection_replies,
}
use selenoid.Wsdriver.Connection.Violations.{requests, handle_connection_dead}

abbrev setting : Setting
setting = record {
  codecs = sample_codecs;
  json = sample_json;
  refuses = λ method url. none;
  session_url = codes "http://127.0.0.1:4444/wd/hub/session/1";
  client = record { is_gzip_supported = true; is_zstd_supported = false };
}

setting-IsSound : IsSound setting
setting-IsSound = record {
  gzip_lossless = marking-IsLossless 31;
  zstd_lossless = marking-IsLossless 40;
}

abbrev done : HttpResponse
done = record {
  status_code = 200;
  content_type = codes "application/json";
  body = 123 ∷ 125 ∷ [];
  read_error = none;
  close_error = none;
}

abbrev answered : Round
answered = record {
  incoming = binary (frame post_url) none;
  alive = true;
  upstream = λ c. responded done;
  writable = true;
}

abbrev gone : Round
gone = record answered { alive = false; upstream = λ c. unreachable (codes "refused") }

post_url-IsCommand : IsCommand post_url
post_url-IsCommand = omega arith

answered-Brings : Brings post_url answered
answered-Brings = record {
  is_command = post_url-IsCommand;
  arrives = refl;
  writable = refl;
  statuses = λ c response e. ground arith;
}

gone-Brings : Brings post_url gone
gone-Brings = record {
  is_command = post_url-IsCommand;
  arrives = refl;
  writable = refl;
  statuses = λ c response e. absurd (cc);
}

handle_connection_replies_example :
    map (reply_id sample_codecs) (sent (handle_connection setting (answered ∷ gone ∷ []) blank))
    ≡ some 70000 ∷ some 70000 ∷ []
handle_connection_replies_example =
    handle_connection_replies setting setting-IsSound (post_url ∷ post_url ∷ [])
      (answered ∷ gone ∷ []) blank (answered-Brings, (gone-Brings, tt))

handle_connection_dead_example : requests (handle_connection setting (gone ∷ []) blank) ≡ []
handle_connection_dead_example = handle_connection_dead setting (gone ∷ []) blank (refl, tt)

abbrev truncated : Round
truncated = record answered { incoming = binary (1 ∷ 2 ∷ []) none }
