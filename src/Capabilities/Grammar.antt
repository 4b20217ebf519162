-- ===== src/Capabilities/Grammar.antt =====
-- The two regular expressions of selenoid.go against the formats that they stand for.
use selenoid.Base.{
  ℕ, ◌≡◌, refl, ◌≢◌, ap, sym, ◌∙◌, true, false, ◌⊎◌, inl, inr, Option, none, some, [], ◌∷◌, ◌++◌,
  Text, codes, text_eq_iff, arith, All, ◌==◌, Bool-cases, ◌↔◌, ==_iff,
}
use mathlib.Core.List.{append_assoc, append-nil}
use selenoid.Capabilities.{
  is_digit, span_digits, short_format, full_format, is_depth, match_height, match_cross,
  match_width, dimensions, is_short, submatch_of,
}
use mathlib.Core.Path.{subst}

-- One digit or more.
abbrev pub IsNumber : Text → Type 0
IsNumber t = (t ≢ []) × All (λ c. is_digit c ≡ true) t

-- `WxH`
abbrev pub IsShort : Text → Type 0
IsShort s = (w : Text) × (h : Text) × IsNumber w × IsNumber h × (s ≡ w ++ (b'x' ∷ h))

abbrev pub IsDepth : Text → Type 0
IsDepth d = (d ≡ codes "8") ⊎ (d ≡ codes "16") ⊎ (d ≡ codes "24")

-- `WxHxD`, with the part `WxH`
abbrev pub IsFull : Text → Text → Type 0
IsFull s short = IsShort short × ((d : Text) × IsDepth d × (s ≡ short ++ (b'x' ∷ d)))

cons-ne-nil : (c : ℕ) (s : Text) → c ∷ s ≢ []
cons-ne-nil c s e = cc

x_no_digit : is_digit b'x' ≡ false
unfolding is_digit
x_no_digit = refl

-- The run of digits in front, taken off.
span_digits-split :
    (s : Text)
    → (s ≡ (span_digits s).0 ++ (span_digits s).1) × All (λ c. is_digit c ≡ true) (span_digits s).0
unfolding span_digits
span_digits-split [] = (refl, tt)
span_digits-split (c ∷ s) = elim (Bool-cases (is_digit c)) [
  | inl digit ↦ rw digit (ap (λ t. c ∷ t) (span_digits-split s).0, (digit, (span_digits-split s).1))
  | inr other ↦ rw other (refl, tt)
]

span_digits-All :
    (ds rest : Text)
    → All (λ c. is_digit c ≡ true) ds
    → span_digits rest ≡ ([], rest)
    → span_digits (ds ++ rest) ≡ (ds, rest)
unfolding span_digits
span_digits-All [] rest h e = e
span_digits-All (d ∷ ds) rest h e = rw (h.0, span_digits-All ds rest h.1 e)

span_digits-x : (rest : Text) → span_digits (b'x' ∷ rest) ≡ ([], b'x' ∷ rest)
unfolding span_digits
span_digits-x rest = rw x_no_digit

-- A run of digits that was read, with what follows.
read-IsNumber :
    (s w rest : Text) (d : ℕ)
    → span_digits s ≡ (d ∷ w, rest)
    → IsNumber (d ∷ w) × (s ≡ (d ∷ w) ++ rest)
read-IsNumber s w rest d e =
    let (split, digits) = span_digits-split s in
    let first : (span_digits s).0 ≡ d ∷ w = ap (λ p. p.0) e in
    let second : (span_digits s).1 ≡ rest = ap (λ p. p.1) e in
    (
      (cons-ne-nil d w, subst (All (λ c. is_digit c ≡ true)) first digits),
      split ∙ cc (first, second),
    )

-- What `dimensions` matches is a `WxH`, and stands in front.
Matched : Text → Option (Text × Text) → Type 0
Matched s o = (short rest : Text) → o ≡ some (short, rest) → IsShort short × (s ≡ short ++ rest)

height-Matched :
    (s w t : Text) (p : Text × Text)
    → IsNumber w
    → s ≡ w ++ (b'x' ∷ t)
    → span_digits t ≡ p
    → Matched s (match_height w p)
unfolding Matched match_height
height-Matched s w t ([], u) nw shape found short rest e = absurd (cc)
height-Matched s w t (b ∷ h, u) nw shape found short rest e =
    let (nh, after) = read-IsNumber t h u b found in
    let is_short : w ++ (b'x' ∷ b ∷ h) ≡ short = cc in
    let is_rest : u ≡ rest = cc in
    (
      (w, b ∷ h, nw, nh, sym is_short),
      shape ∙ rw (after, ← is_short, ← is_rest) (sym (append_assoc w (b'x' ∷ b ∷ h) u)),
    )

cross-Matched : (s w r : Text) → IsNumber w → s ≡ w ++ r → Matched s (match_cross w r)
unfolding Matched match_cross
cross-Matched s w [] nw shape = λ short rest e. absurd (cc)
cross-Matched s w (c ∷ t) nw shape = elim (Bool-cases (c == b'x')) [
  | inl cross ↦
      rw cross (height-Matched s w t (span_digits t) nw (shape ∙ rw ((==_iff c b'x').0 cross)) refl)
  | inr other ↦ rw other (λ short rest e. absurd (cc))
]

width-Matched : (s : Text) (p : Text × Text) → span_digits s ≡ p → Matched s (match_width p)
unfolding match_width
width-Matched s ([], r) found = unfold Matched in (λ short rest e. absurd (cc))
width-Matched s (d ∷ w, r) found =
    let (nw, shape) = read-IsNumber s w r d found in cross-Matched s (d ∷ w) r nw shape

dimensions_sound : (s : Text) → Matched s (dimensions s)
unfolding dimensions
dimensions_sound s = width-Matched s (span_digits s) refl

dimensions_sound_at :
    (s short rest : Text) → dimensions s ≡ some (short, rest) → IsShort short × (s ≡ short ++ rest)
dimensions_sound_at s = unfold Matched in dimensions_sound s

-- Every `WxH` in front of something that begins with no digit is matched.
dimensions_complete :
    (w h rest : Text)
    → IsNumber w
    → IsNumber h
    → span_digits rest ≡ ([], rest)
    → dimensions (w ++ (b'x' ∷ (h ++ rest))) ≡ some (w ++ (b'x' ∷ h), rest)
unfolding dimensions
dimensions_complete [] h rest nw nh e = absurd (nw.0 refl)
dimensions_complete (d ∷ w) [] rest nw nh e = absurd (nh.0 refl)
dimensions_complete (d ∷ w) (b ∷ h) rest nw nh e =
    let outer = span_digits-All (d ∷ w) _ nw.1 (span_digits-x ((b ∷ h) ++ rest)) in
    let inner = span_digits-All (b ∷ h) rest nh.1 e in
    ap match_width outer ∙ ap (match_height (d ∷ w)) inner

is_short_inv : (o : Option (Text × Text)) → is_short o ≡ true → (m : Text) × (o ≡ some (m, []))
unfolding is_short
is_short_inv none e = absurd (cc)
is_short_inv (some (m, [])) e = (m, refl)
is_short_inv (some (m, c ∷ r)) e = absurd (cc)

-- `shortFormat` matches exactly the texts `WxH`.
pub short_format_iff : (s : Text) → (short_format s ≡ true) ↔ IsShort s
unfolding short_format
short_format_iff s = (
  λ e.
      let (m, found) = is_short_inv (dimensions s) e in
      let (short, shape) = dimensions_sound_at s m [] found in
      subst IsShort (sym (shape ∙ append-nil m)) short,
  λ (w, h, nw, nh, shape).
      let found : dimensions s ≡ some (w ++ (b'x' ∷ h), []) =
        ap dimensions (shape ∙ ap (λ t. w ++ (b'x' ∷ t)) (sym (append-nil h)))
        ∙ dimensions_complete w h [] nw nh (unfold span_digits in refl) in
      rw found,
)

is_depth_iff : (d : Text) → (is_depth d ≡ true) ↔ IsDepth d
unfolding is_depth
is_depth_iff d =
    ground
      (arith, text_eq_iff d (codes "8"), text_eq_iff d (codes "16"), text_eq_iff d (codes "24"))

submatch_inv :
    (o : Option (Text × Text)) (short : Text)
    → submatch_of o ≡ some short
    → (d : Text) × IsDepth d × (o ≡ some (short, b'x' ∷ d))
unfolding submatch_of
submatch_inv none short e = absurd (cc)
submatch_inv (some (m, [])) short e = absurd (cc)
submatch_inv (some (m, c ∷ d)) short e = elim (Bool-cases (is_depth d)) [
  | inl deep ↦ (d, (is_depth_iff d).0 deep, ground arith)
  | inr flat ↦ absurd (ground arith)
]

-- `fullFormat` matches exactly the texts `WxHxD` with a depth of 8, 16 or 24, and its first submatch is
-- the part `WxH`.
pub full_format_iff : (s short : Text) → (full_format s ≡ some short) ↔ IsFull s short
unfolding full_format
full_format_iff s short = (
  λ e.
      let (d, deep, found) = submatch_inv (dimensions s) short e in
      let (is_short, shape) = dimensions_sound_at s short (b'x' ∷ d) found in
      (is_short, (d, deep, shape)),
  λ ((w, h, nw, nh, is), (d, deep, shape)).
      let found : dimensions s ≡ some (w ++ (b'x' ∷ h), b'x' ∷ d) =
        ap dimensions (shape ∙ ap (λ t. t ++ (b'x' ∷ d)) is ∙ append_assoc w (b'x' ∷ h) (b'x' ∷ d))
        ∙ dimensions_complete w h (b'x' ∷ d) nw nh (span_digits-x d) in
      rw (found, (is_depth_iff d).1 deep) (ap some (sym is)),
)
