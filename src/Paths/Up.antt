-- ===== src/Paths/Up.antt =====
-- Names that leave the directory that they are joined to.
use selenoid.Base.{◌≡◌, refl, ap, ◌∙◌, true, List, [], ◌∷◌, ◌++◌, Text, text_eq, codes, arith, All}
use mathlib.Core.List.{reverse, reverse-cons, reverse-reverse, reverse-append}
use selenoid.Paths.{slash, split, join, clean_elements, clean_element, go_up, path_join}
use selenoid.Paths.Laws.{split-cons, split-fragment}
use selenoid.Paths.Clean.{clean-rooted}
use selenoid.Paths.Elements.{
  IsNormal, rooted, text_eq-false, clean_element-normal, clean_elements-normal, split-join-append,
  no_slashes,
}

popped-normal :
    (d : Text) (below : List Text)
    → IsNormal d
    → clean_element true (d ∷ below) (codes "..") ≡ below
unfolding clean_element go_up text_eq
popped-normal d below n = rw (text_eq-false d (codes "..") n.no_up) refl

up_split : (name : Text) → IsNormal name → split (codes "../" ++ name) ≡ codes ".." ∷ name ∷ []
up_split name n =
    split-cons (codes "..") name (ground arith)
    ∙ ap (λ l. codes ".." ∷ l) (split-fragment name n.no_slash)

up_one :
    (ds : List Text) (d name : Text)
    → IsNormal d
    → IsNormal name
    → clean_elements true (reverse (ds ++ (d ∷ []))) (codes ".." ∷ name ∷ []) ≡ ds ++ (name ∷ [])
unfolding clean_elements
up_one ds d name n m =
    ap (λ st. reverse (clean_element true (clean_element true st (codes "..")) name))
      (reverse-append ds (d ∷ []))
    ∙ (ap (λ st. reverse (clean_element true st name)) (popped-normal d (reverse ds) n)
        ∙ (ap reverse (clean_element-normal true (reverse ds) name m)
            ∙ (reverse-cons name (reverse ds) ∙ ap (λ l. l ++ (name ∷ [])) (reverse-reverse ds))))

up_from :
    (x : Text) (xs ds : List Text) (d name : Text)
    → x ∷ xs ≡ ds ++ (d ∷ [])
    → All IsNormal (x ∷ xs)
    → IsNormal d
    → IsNormal name
    → path_join (rooted (x ∷ xs)) (codes "../" ++ name) ≡ rooted (ds ++ (name ∷ []))
unfolding path_join
up_from x xs ds d name e h n m =
    clean-rooted (join (x ∷ xs) ++ (slash ∷ (codes "../" ++ name)))
    ∙ ap rooted (
        ap (clean_elements true []) (
          split-join-append x xs (codes "../" ++ name) h.0.no_slash (no_slashes xs h.1)
          ∙ ap (λ l. (x ∷ xs) ++ l) (up_split name m))
        ∙ (clean_elements-normal [] (x ∷ xs) h (codes ".." ∷ name ∷ [])
            ∙ (ap (λ l. clean_elements true (reverse l) (codes ".." ∷ name ∷ [])) e
                ∙ up_one ds d name n m)))

-- A name that begins with `..` leaves the directory.
pub path_join_up :
    (ds : List Text) (d name : Text)
    → All IsNormal (ds ++ (d ∷ []))
    → IsNormal d
    → IsNormal name
    → path_join (rooted (ds ++ (d ∷ []))) (codes "../" ++ name) ≡ rooted (ds ++ (name ∷ []))
path_join_up [] d name h n m = up_from d [] [] d name refl h n m
path_join_up (x ∷ ds) d name h n m = up_from x (ds ++ (d ∷ [])) (x ∷ ds) d name refl h n m
