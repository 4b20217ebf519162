-- ===== src/Routes/Mux/Laws.antt =====
-- Which paths `http.ServeMux` calls clean, and where it sends them.
use selenoid.Base.{
  ℕ, ◌≡◌, refl, ◌≢◌, ap, sym, ◌∙◌, Bool, true, false, not, ◌&&◌, if◌then◌else◌, some, List, [], ◌∷◌,
  ◌++◌, Text, text_eq, arith, All, Bool-cases, inl, inr, text_eq_refl, text_eq_iff, has_suffix,
  has_prefix, ◌==◌, ==_iff,
}
use mathlib.Core.List.{reverse, reverse_aux, reverse-append}
use mathlib.Core.Path.{subst}
use selenoid.Paths.{slash, join, clean}
use selenoid.Paths.Laws.{IsFragment}
use selenoid.Paths.Clean.{clean-normal, clean-slashed, NoUp}
use selenoid.Paths.Elements.{IsNormal, rooted}
use selenoid.Paths.NoUp.{clean-NoUp}
use selenoid.Routes.Mux.{
  handled, serve_mux, root_it, clean_path, ends_in_slash, best, moves_to_tree,
}

-- The text ends in a byte that is no slash.
abbrev NoSlashLast : Text → Type 0
NoSlashLast p = (c : ℕ) × (g : Text) × (reverse p ≡ c ∷ g) × (c ≢ slash)

reversed : (xs ys : Text) → IsFragment xs → IsFragment ys → IsFragment (reverse_aux xs ys)
reversed [] ys hx hy = hy
reversed (x ∷ xs) ys hx hy = reversed xs (x ∷ ys) hx.1 (hx.0, hy)

reverse_non_empty : (c : ℕ) (p ys : Text) → (d : ℕ) × (g : Text) × (reverse_aux (c ∷ p) ys ≡ d ∷ g)
reverse_non_empty c [] ys = (c, ys, refl)
reverse_non_empty c (d ∷ p) ys = reverse_non_empty d p (c ∷ ys)

fragment_last : (f : Text) → IsNormal f → NoSlashLast f
fragment_last [] n = absurd (n.some_text refl)
fragment_last (c ∷ f) n =
    let (d, g, e) = reverse_non_empty c f [] in
    let h : IsFragment (d ∷ g) = subst IsFragment e (reversed (c ∷ f) [] n.no_slash tt) in
    (d, g, e, h.0)

append_last : (p q : Text) → NoSlashLast q → NoSlashLast (p ++ q)
append_last p q (c, g, e, ne) =
    (c, g ++ reverse p, reverse-append p q ∙ ap (λ l. l ++ reverse p) e, ne)

join_last : (f : Text) (fs : List Text) → IsNormal f → All IsNormal fs → NoSlashLast (join (f ∷ fs))
unfolding join
join_last f [] n h = fragment_last f n
join_last f (g ∷ fs) n h =
    append_last f _ (append_last (slash ∷ []) (join (g ∷ fs)) (join_last g fs h.0 h.1))

not_slash_last : (p : Text) → NoSlashLast p → ends_in_slash p ≡ false
unfolding ends_in_slash has_suffix has_prefix
not_slash_last p (c, g, e, ne) = rw e (elim (Bool-cases (c == slash)) [
  | inl same ↦ absurd (ne ((==_iff c slash).0 same))
  | inr other ↦ rw other refl
])

slash_last : (p : Text) → ends_in_slash (p ++ (slash ∷ [])) ≡ true
unfolding ends_in_slash has_suffix has_prefix
slash_last p = rw (reverse-append p (slash ∷ [])) refl

-- Paths of normal elements are clean, with a slash behind them or not.
pub clean_path-rooted :
    (f : Text) (fs : List Text)
    → All IsNormal (f ∷ fs)
    → clean_path (rooted (f ∷ fs)) ≡ rooted (f ∷ fs)
unfolding clean_path
clean_path-rooted f fs h =
    rw
      (not_slash_last (rooted (f ∷ fs))
        (append_last (slash ∷ []) (join (f ∷ fs)) (join_last f fs h.0 h.1)))
      (clean-normal f fs h)

join_non_empty : (f : Text) (fs : List Text) → f ≢ [] → join (f ∷ fs) ≢ []
unfolding join
join_non_empty [] fs ne = absurd (ne refl)
join_non_empty (c ∷ f) [] ne = λ e. cc
join_non_empty (c ∷ f) (g ∷ fs) ne = λ e. cc

not_root : (p : Text) → p ≢ [] → text_eq (slash ∷ p) (slash ∷ []) ≡ false
unfolding text_eq
not_root [] ne = absurd (ne refl)
not_root (c ∷ p) ne = refl

pub clean_path-slashed :
    (f : Text) (fs : List Text)
    → All IsNormal (f ∷ fs)
    → clean_path (rooted (f ∷ fs) ++ (slash ∷ [])) ≡ rooted (f ∷ fs) ++ (slash ∷ [])
unfolding clean_path
clean_path-slashed f fs h =
    rw
      (
        slash_last (rooted (f ∷ fs)),
        clean-slashed f fs h,
        not_root (join (f ∷ fs)) (join_non_empty f fs h.0.some_text),
      )
      refl

root_it-rooted : (p : Text) → (q : Text) × (root_it p ≡ slash ∷ q)
unfolding root_it
root_it-rooted [] = ([], refl)
root_it-rooted (c ∷ p) = elim (Bool-cases (c == slash)) [
  | inl same ↦ (p, rw same (ap (λ s. s ∷ p) ((==_iff c slash).0 same)))
  | inr other ↦ (c ∷ p, rw other refl)
]

-- No clean path holds `..`.
pub clean_path-NoUp : (p : Text) → NoUp (clean_path p)
unfolding clean_path
clean_path-NoUp p =
    let (q, e) = root_it-rooted p in
    let (plain, slashed) = clean-NoUp q in
    subst
      (λ r. NoUp (
        if ends_in_slash r && not (text_eq (clean r) (slash ∷ []))
        then clean r ++ (slash ∷ [])
        else clean r))
      (sym e)
      (by_test (ends_in_slash (slash ∷ q) && not (text_eq (clean (slash ∷ q)) (slash ∷ []))) _ _
        slashed plain)
  where
    by_test : (b : Bool) (x y : Text) → NoUp x → NoUp y → NoUp (if b then x else y)
    by_test true x y hx hy = hx
    by_test false x y hx hy = hy

module _ {R : Type 0} (ps : List (Text × R)) where
  -- A clean path goes to the best pattern, unless it names a tree.
  pub serve_mux-clean :
      (p : Text) (pattern : Text) (r : R)
      → clean_path p ≡ p
      → moves_to_tree ps p ≡ false
      → best ps p ≡ some (pattern, r)
      → serve_mux ps p ≡ handled r
  unfolding serve_mux
  serve_mux-clean p pattern r clean stays found = rw (clean, stays, text_eq_refl p, found) refl

  -- A path that a handler sees is clean.
  pub handled_clean : (p : Text) (r : R) → serve_mux ps p ≡ handled r → clean_path p ≡ p
  unfolding serve_mux
  handled_clean p r e = elim (Bool-cases (moves_to_tree ps (clean_path p))) [
    | inl moves ↦ absurd (ground arith)
    | inr stays ↦ elim (Bool-cases (text_eq (clean_path p) p)) [
      | inl same ↦ (text_eq_iff (clean_path p) p).0 same
      | inr differ ↦ absurd (ground arith)
    ]
  ]
