-- ===== src/Capabilities/Checks.antt =====
-- What the checked capabilities of selenoid.go are good for.
use selenoid.Base.{
  ◌≡◌, refl, ◌≢◌, ap, sym, ◌∙◌, Bool, true, false, inl, inr, Option, none, some, [], ◌∷◌, ◌++◌,
  Text, codes, text_eq, arith, Bool-cases, Option-cases, ◌⊎◌,
}
use mathlib.Core.Path.{subst}
use selenoid.Int.{ℤ, ◌≤ℤ◌}
use selenoid.Capabilities.{
  Result, ok, panic, get_screen_resolution, get_video_screen_size, get_session_timeout, full_format,
  short_format, resolution_of, matches, shorten_screen_resolution, dimensions, span_digits,
  is_digit, is_depth,
}
use selenoid.Capabilities.Grammar.{IsFull, IsShort, full_format_iff, short_format_iff}

default_full : full_format (codes "1920x1080x24") ≡ some (codes "1920x1080")
unfolding full_format text_eq dimensions span_digits is_digit is_depth
default_full = refl

value_of {ℓ} : {A : Type ℓ} → A → Result A → A
value_of d (ok x) = x
value_of d _ = d

ok-injective {ℓ} : {A : Type ℓ} {x y : A} → ok x ≡ ok y → x ≡ y
ok-injective {x = x} e = unfold value_of in ap (value_of x) e

-- The resolution that a session gets is always `WxHxD`.
resolution_full :
    (input r : Text) (full : Option Text) (short : Bool)
    → full_format input ≡ full
    → short_format input ≡ short
    → resolution_of input (matches full) short ≡ ok r
    → (s : Text) × (full_format r ≡ some s)
unfolding resolution_of
resolution_full input r (some s) short f g e = (s, ap full_format (sym (ok-injective e)) ∙ f)
resolution_full input r none true f g e =
    let full : IsFull (input ++ codes "x24") input =
      ((short_format_iff input).0 g, (codes "24", inr (inr refl), refl)) in
    (
      input,
      ap full_format (sym (ok-injective e)) ∙ (full_format_iff (input ++ codes "x24") input).1 full,
    )
resolution_full input r none false f g e = absurd (cc)

full_of_ok :
    (input r : Text) → get_screen_resolution input ≡ ok r → (s : Text) × (full_format r ≡ some s)
unfolding get_screen_resolution
full_of_ok [] r e = (codes "1920x1080", ap full_format (sym (ok-injective e)) ∙ default_full)
full_of_ok (c ∷ input) r e = resolution_full (c ∷ input) r _ _ refl refl e

size_cases :
    (size r short : Text)
    → full_format r ≡ some short
    → (get_video_screen_size size r ≢ panic)
      × ((s : Text) → get_video_screen_size size r ≡ ok s → (short_format s ≡ true) ⊎ (s ≡ short))
unfolding get_video_screen_size shorten_screen_resolution
size_cases [] r short f = rw f ((λ e. cc), (λ s e. inr (sym (ok-injective e))))
size_cases (c ∷ size) r short f = elim (Bool-cases (short_format (c ∷ size))) [
  | inl good ↦ rw good ((λ e. cc), (λ s e. inl (ap short_format (sym (ok-injective e)) ∙ good)))
  | inr bad ↦ rw bad ((λ e. cc), (λ s e. absurd (cc)))
]

-- A resolution that was accepted is `WxHxD`, and the size of the video that goes with it is `WxH`: the
-- code never indexes a match that is not there.
pub get_video_screen_size_safe :
    (input r size : Text)
    → get_screen_resolution input ≡ ok r
    → ((short : Text) × IsFull r short)
      × (get_video_screen_size size r ≢ panic)
      × ((s : Text) → get_video_screen_size size r ≡ ok s → IsShort s)
get_video_screen_size_safe input r size e =
    let (short, f) = full_of_ok input r e in
    let full = (full_format_iff r short).0 f in
    let (safe, sizes) = size_cases size r short f in
    (
      (short, full),
      safe,
      λ s found. elim (sizes s found) [
        | inl good ↦ (short_format_iff s).0 good
        | inr same ↦ subst IsShort (sym same) full.0
      ],
    )

-- A timeout that a client asks for is never above the maximum, and is what it asked for unless that is
-- above; where it asks for none, the default is taken.
pub get_session_timeout_capped :
    (parse_duration : Text → Option ℤ) (capability : Text) (max_timeout default_timeout t : ℤ)
    → get_session_timeout parse_duration capability max_timeout default_timeout ≡ ok t
    → ((capability ≡ []) × (t ≡ default_timeout))
      ⊎ ((t ≤ℤ max_timeout)
          × ((st : ℤ) × (parse_duration capability ≡ some st) × ((st ≡ t) ⊎ ¬ (st ≤ℤ max_timeout))))
unfolding get_session_timeout
get_session_timeout_capped parse_duration [] max_timeout default_timeout t e =
    inl (refl, sym (ok-injective e))
get_session_timeout_capped parse_duration (x ∷ c) max_timeout default_timeout t e =
    elim (Option-cases (parse_duration (x ∷ c))) [
      | inl bad ↦ absurd (ground arith)
      | inr (st, good) ↦ inr (ground arith, (st, good, ground arith))
    ]
