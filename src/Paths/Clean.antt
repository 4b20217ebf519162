-- ===== src/Paths/Clean.antt =====
-- `path.Clean` of rooted paths, and names that are joined to them.
use selenoid.Base.{◌≡◌, refl, ◌≢◌, ap, sym, ◌∙◌, true, List, [], ◌∷◌, ◌++◌, Text, codes, All}
use mathlib.Core.List.{reverse_aux, append-nil, reverse-reverse}
use selenoid.Paths.{slash, split, join, clean, clean_elements, clean_element, path_join}
use selenoid.Paths.Laws.{IsFragment}
use selenoid.Paths.Elements.{
  IsNormal, rooted, clean_elements-normal, clean_elements-no_up, split-fragments,
  clean_elements-All, split-join, split-join-append, no_slashes,
}

-- No element is `..`.
abbrev pub NoUp : Text → Type 0
NoUp p = All (λ f. f ≢ codes "..") (split p)

pub clean-rooted : (p : Text) → clean (slash ∷ p) ≡ rooted (clean_elements true [] (split p))
unfolding clean
clean-rooted p = refl

-- `path.Clean` of a rooted path.
pub clean-IsNormal :
    (p : Text) → (es : List Text) × All IsNormal es × (clean (slash ∷ p) ≡ rooted es)
clean-IsNormal p = (
  clean_elements true [] (split p),
  clean_elements-All [] (split p) tt (split-fragments p),
  clean-rooted p,
)

-- `path.Clean` of the path of some normal elements and a rest without `..`.
clean_behind :
    (d : Text) (ds fs : List Text) (p : Text)
    → All IsNormal (d ∷ ds)
    → split p ≡ (d ∷ ds) ++ fs
    → All IsFragment fs
    → All (λ f. f ≢ codes "..") fs
    → (es : List Text) × All IsNormal es × (clean (slash ∷ p) ≡ rooted ((d ∷ ds) ++ es))
clean_behind d ds fs p h shape n up =
    let (es, normal, kept) = clean_elements-no_up (reverse_aux (d ∷ ds) []) fs n up in
    (
      es,
      normal,
      clean-rooted p
          ∙ ap rooted (
              ap (clean_elements true []) shape
              ∙ (clean_elements-normal [] (d ∷ ds) h fs
                  ∙ (kept ∙ ap (λ l. l ++ es) (reverse-reverse (d ∷ ds))))),
    )

-- Normal elements stay as they are.
pub clean-normal :
    (d : Text) (ds : List Text) → All IsNormal (d ∷ ds) → clean (rooted (d ∷ ds)) ≡ rooted (d ∷ ds)
clean-normal d ds h =
    let fragments = no_slashes ds h.1 in
    clean-rooted (join (d ∷ ds))
    ∙ ap rooted (
        ap (clean_elements true [])
          (split-join d ds h.0.no_slash fragments ∙ sym (append-nil (d ∷ ds)))
        ∙ (clean_elements-normal [] (d ∷ ds) h []
            ∙ unfold clean_elements in reverse-reverse (d ∷ ds)))

slashed_shape :
    (d : Text) (ds : List Text)
    → All IsNormal (d ∷ ds)
    → split (join (d ∷ ds) ++ (slash ∷ [])) ≡ (d ∷ ds) ++ ([] ∷ [])
unfolding split
slashed_shape d ds h = split-join-append d ds [] h.0.no_slash (no_slashes ds h.1)

-- A slash at the end is taken off.
pub clean-slashed :
    (d : Text) (ds : List Text)
    → All IsNormal (d ∷ ds)
    → clean (rooted (d ∷ ds) ++ (slash ∷ [])) ≡ rooted (d ∷ ds)
clean-slashed d ds h =
    clean-rooted (join (d ∷ ds) ++ (slash ∷ []))
    ∙ ap rooted (
        ap (clean_elements true []) (slashed_shape d ds h)
        ∙ (clean_elements-normal [] (d ∷ ds) h ([] ∷ [])
            ∙ unfold clean_elements clean_element in reverse-reverse (d ∷ ds)))

-- A name without `..` stays inside the directory that it is joined to.
pub path_join_inside :
    (d : Text) (ds : List Text) (name : Text)
    → All IsNormal (d ∷ ds)
    → NoUp name
    → (es : List Text) × All IsNormal es
      × (path_join (rooted (d ∷ ds)) name ≡ rooted ((d ∷ ds) ++ es))
unfolding path_join
path_join_inside d ds [] h up =
    ([], tt, clean-normal d ds h ∙ ap rooted (sym (append-nil (d ∷ ds))))
path_join_inside d ds (c ∷ name) h up =
    clean_behind d ds (split (c ∷ name)) (join (d ∷ ds) ++ (slash ∷ c ∷ name)) h
      (split-join-append d ds (c ∷ name) h.0.no_slash (no_slashes ds h.1))
      (split-fragments (c ∷ name)) up

-- Every name stays inside the root.
pub path_join_root :
    (name : Text) → (es : List Text) × All IsNormal es × (path_join (rooted []) name ≡ rooted es)
unfolding path_join join
path_join_root [] = clean-IsNormal []
path_join_root (c ∷ name) = clean-IsNormal (slash ∷ c ∷ name)
