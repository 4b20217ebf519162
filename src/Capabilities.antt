-- ===== src/Capabilities.antt =====
-- selenoid.go, `getScreenResolution` to `getSessionTimeout`: the capabilities that are checked before a
-- browser starts.
pub mod Grammar
pub mod Checks
mod Examples
use selenoid.Base.{
  ℕ, ◌+◌, ◌≡◌, Bool, true, false, ◌&&◌, ◌||◌, Option, none, some, List, [], ◌∷◌, ◌++◌, Text,
  text_eq, codes, leb, ◌==◌, if◌then◌else◌,
}
use selenoid.Int.{ℤ, leb_ℤ}

pub is_digit : ℕ → Bool
is_digit c = leb b'0' c && leb c b'9'

-- The longest run of digits in front, and the rest.
abbrev keep_digit : ℕ → Text × Text → Text × Text
keep_digit c (ds, rest) = (c ∷ ds, rest)

span_digits : Text → Text × Text
span_digits [] = ([], [])
span_digits (c ∷ s) =
    let more = keep_digit c (span_digits s) in if is_digit c then more else ([], c ∷ s)

-- `[0-9]+x[0-9]+` in front: what it matches, and what follows.
match_height : Text → Text × Text → Option (Text × Text)
match_height w ([], rest) = none
match_height w (d ∷ h, rest) = some (w ++ (b'x' ∷ d ∷ h), rest)

match_cross : Text → Text → Option (Text × Text)
match_cross w [] = none
match_cross w (c ∷ s) = if c == b'x' then match_height w (span_digits s) else none

match_width : Text × Text → Option (Text × Text)
match_width ([], rest) = none
match_width (d ∷ w, rest) = match_cross (d ∷ w) rest

dimensions : Text → Option (Text × Text)
unfolding match_height match_cross match_width
dimensions s = match_width (span_digits s)

is_short : Option (Text × Text) → Bool
is_short (some (short, [])) = true
is_short _ = false

-- `^[0-9]+x[0-9]+$`
pub short_format : Text → Bool
unfolding is_short
short_format s = is_short (dimensions s)

is_depth : Text → Bool
is_depth d = text_eq d (codes "8") || text_eq d (codes "16") || text_eq d (codes "24")

submatch_of : Option (Text × Text) → Option Text
submatch_of (some (short, c ∷ d)) = if c == b'x' && is_depth d then some short else none
submatch_of _ = none

-- `^([0-9]+x[0-9]+)x(8|16|24)$`: the first submatch.
pub full_format : Text → Option Text
unfolding submatch_of
full_format s = submatch_of (dimensions s)

-- Go's result: a value, an error with its text, or a panic.
pub data Result {ℓ} (A : Type ℓ) : Type ℓ where
  ok : A → Result A
  err : Text → Result A
  panic : Result A

resolution_of : Text → Bool → Bool → Result Text
resolution_of input true short = ok input
resolution_of input false true = ok (input ++ codes "x24")
resolution_of input false false = err (
    codes "malformed screenResolution capability: "
    ++ (input ++ codes ", correct format is WxH (1920x1080) or WxHxD (1920x1080x24)"))

abbrev matches : Option Text → Bool
matches none = false
matches (some t) = true

pub get_screen_resolution : Text → Result Text
unfolding resolution_of
get_screen_resolution [] = ok (codes "1920x1080x24")
get_screen_resolution (c ∷ input) =
    resolution_of (c ∷ input) (matches (full_format (c ∷ input))) (short_format (c ∷ input))

-- `FindStringSubmatch(…)[1]` is out of range where there is no match.
abbrev submatch : Option Text → Result Text
submatch none = panic
submatch (some t) = ok t

pub shorten_screen_resolution : Text → Result Text
shorten_screen_resolution s = submatch (full_format s)

pub get_video_screen_size : Text → Text → Result Text
get_video_screen_size [] resolution = shorten_screen_resolution resolution
get_video_screen_size (c ∷ size) resolution =
    if short_format (c ∷ size)
    then ok (c ∷ size)
    else err (
        codes "malformed videoScreenSize capability: "
        ++ ((c ∷ size) ++ codes ", correct format is WxH (1920x1080)"))

capped : ℤ → Option ℤ → Result ℤ
capped max_timeout none = err (codes "invalid sessionTimeout capability")
capped max_timeout (some st) = if leb_ℤ st max_timeout then ok st else ok max_timeout

-- `parse_duration` stands for `time.ParseDuration`; a duration is a signed number of nanoseconds.
pub get_session_timeout : (Text → Option ℤ) → Text → ℤ → ℤ → Result ℤ
unfolding capped
get_session_timeout parse_duration [] max_timeout default_timeout = ok default_timeout
get_session_timeout parse_duration (c ∷ t) max_timeout default_timeout =
    capped max_timeout (parse_duration (c ∷ t))
