-- ===== src/Upload/Key.antt =====
-- The keys of upload/s3.go.
use selenoid.Base.{
  zero, ◌≢◌, [], ◌∷◌, Text, codes, has_prefix, All, arith, Bool-cases, inl, inr, ◌==◌,
}
use selenoid.Upload.{CreatedFile, replace_from, replace_all, filled, get_s3_key}

spaces_replaced : (s : Text) → All (λ c. c ≢ 32) (replace_from (codes " ") (codes "-") zero s)
unfolding replace_from has_prefix
spaces_replaced [] = tt
spaces_replaced (c ∷ s) = elim (Bool-cases (c == 32)) [
  | inl space ↦ rw space ((λ e. omega arith), spaces_replaced s)
  | inr other ↦ rw other ((λ e. ground arith), spaces_replaced s)
]

-- A key holds no space, whatever the pattern and the names of the session are.
pub get_s3_key_no_spaces :
    (key_pattern today : Text) (f : CreatedFile)
    → All (λ c. c ≢ b' ') (get_s3_key key_pattern today f)
unfolding get_s3_key replace_all
get_s3_key_no_spaces key_pattern today f = spaces_replaced (filled key_pattern today f)
