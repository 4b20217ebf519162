-- ===== src/Wsdriver/Request/Examples.antt =====
-- The theorems on the parser of commands at one frame: `POST url` with two bytes of body.
use selenoid.Base.{◌≡◌, none, arith}
use selenoid.Wsdriver.Samples.{post_url, blank}
use selenoid.Wsdriver.Request.{parse_request_v1}
use selenoid.Wsdriver.Request.Format.{IsCommand, frame, parse-frame}

post_url-IsCommand : IsCommand post_url
post_url-IsCommand = omega arith

parse-frame_example : parse_request_v1 (frame post_url) blank ≡ (post_url, none)
parse-frame_example = parse-frame post_url blank post_url-IsCommand
