-- ===== src/Capabilities/Examples.antt =====
-- Runs of the checks of selenoid.go, and the theorems at concrete inputs.
use selenoid.Base.{◌≡◌, refl, ◌≢◌, ◌⊎◌, Option, some, Text, codes, []}
use selenoid.Int.{ℤ, pos, ◌≤ℤ◌}
use selenoid.Capabilities.{
  ok, panic, get_screen_resolution, get_video_screen_size, get_session_timeout, short_format,
  full_format, dimensions, span_digits, is_digit, is_depth, resolution_of, capped, is_short,
  submatch_of,
}
use selenoid.Capabilities.Grammar.{IsShort, IsFull}
use selenoid.Capabilities.Checks.{get_video_screen_size_safe, get_session_timeout_capped}

abbrev small : Text
small = codes "800x600"

abbrev small_deep : Text
small_deep = codes "800x600x24"

small_resolution : get_screen_resolution small ≡ ok small_deep
unfolding get_screen_resolution resolution_of full_format short_format dimensions span_digits
    is_digit is_depth is_short submatch_of
small_resolution = refl

-- 100 nanoseconds, whatever the text.
abbrev any_duration : Text → Option ℤ
any_duration t = some (pos 100)

timeout_taken : get_session_timeout any_duration (codes "100ns") (pos 50) (pos 10) ≡ ok (pos 50)
unfolding get_session_timeout capped
timeout_taken = refl

get_video_screen_size_safe_example :
    ((short : Text) × IsFull small_deep short)
    × (get_video_screen_size [] small_deep ≢ panic)
    × ((s : Text) → get_video_screen_size [] small_deep ≡ ok s → IsShort s)
get_video_screen_size_safe_example = get_video_screen_size_safe small small_deep [] small_resolution

get_session_timeout_capped_example :
    ((codes "100ns" ≡ []) × (pos 50 ≡ pos 10))
    ⊎ ((pos 50 ≤ℤ pos 50)
        × ((st : ℤ) × (any_duration (codes "100ns") ≡ some st)
            × ((st ≡ pos 50) ⊎ ¬ (st ≤ℤ pos 50))))
get_session_timeout_capped_example =
    get_session_timeout_capped any_duration (codes "100ns") (pos 50) (pos 10) (pos 50) timeout_taken
