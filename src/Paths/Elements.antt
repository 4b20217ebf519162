-- ===== src/Paths/Elements.antt =====
-- What `path.Clean` does to the elements of a path.
use selenoid.Base.{
  ℕ, ◌≡◌, refl, ◌≢◌, ap, sym, ◌∙◌, Bool, true, false, List, [], ◌∷◌, ◌++◌, Text, text_eq,
  text_eq_iff, codes, arith, All, Bool-cases, inl, inr, ◌⊎◌, ==_iff, ◌==◌,
}
use mathlib.Core.List.{reverse, reverse_aux, reverse-cons, append_assoc, append-nil}
use mathlib.Core.Path.{subst}
use selenoid.Paths.{slash, split, join, clean_elements, clean_element, go_up, start_fragment}
use selenoid.Paths.Laws.{IsFragment, split-cons, split-fragment}

-- An element that `path.Clean` keeps: not empty, no `.` and no `..`, no slash inside.
pub record IsNormal (f : Text) : Type 0 where
  pub some_text : f ≢ []
  pub no_dot : f ≢ codes "."
  pub no_up : f ≢ codes ".."
  pub no_slash : IsFragment f

-- The path of these elements.
abbrev pub rooted : List Text → Text
rooted fs = slash ∷ join fs

pub text_eq-false : (s t : Text) → s ≢ t → text_eq s t ≡ false
text_eq-false s t ne = elim (Bool-cases (text_eq s t)) [
  | inl same ↦ absurd (ne ((text_eq_iff s t).0 same))
  | inr differ ↦ differ
]

pub clean_element-normal :
    (rooted? : Bool) (stack : List Text) (f : Text)
    → IsNormal f
    → clean_element rooted? stack f ≡ f ∷ stack
unfolding clean_element
clean_element-normal r stack [] n = absurd (n.some_text refl)
clean_element-normal r stack (c ∷ f) n =
    rw (text_eq-false (c ∷ f) _ n.no_dot, text_eq-false (c ∷ f) _ n.no_up) refl

-- Normal elements are all kept.
pub clean_elements-normal :
    (stack ds : List Text)
    → All IsNormal ds
    → (fs : List Text)
    → clean_elements true stack (ds ++ fs) ≡ clean_elements true (reverse_aux ds stack) fs
unfolding clean_elements
clean_elements-normal stack [] h fs = refl
clean_elements-normal stack (d ∷ ds) h fs =
    ap (λ st. clean_elements true st (ds ++ fs)) (clean_element-normal true stack d h.0)
    ∙ clean_elements-normal (d ∷ stack) ds h.1 fs

-- An element other than `..` is left out or kept.
clean_element_kept :
    (stack : List Text) (f : Text)
    → IsFragment f
    → f ≢ codes ".."
    → (clean_element true stack f ≡ stack) ⊎ (IsNormal f × (clean_element true stack f ≡ f ∷ stack))
unfolding clean_element
clean_element_kept stack [] h ne = inl refl
clean_element_kept stack (c ∷ f) h ne = elim (Bool-cases (text_eq (c ∷ f) (codes "."))) [
  | inl dot ↦ inl (rw dot refl)
  | inr other ↦ inr (
    record {
      some_text = λ e. cc;
      no_dot = λ e. let same = (text_eq_iff (c ∷ f) (codes ".")).1 e in cc;
      no_up = ne;
      no_slash = h;
    },
    rw (other, text_eq-false (c ∷ f) _ ne) refl,
  )
]

-- Elements without `..` are put behind the stack, and those that are kept are normal.
pub clean_elements-no_up :
    (stack fs : List Text)
    → All IsFragment fs
    → All (λ f. f ≢ codes "..") fs
    → (es : List Text) × All IsNormal es × (clean_elements true stack fs ≡ reverse stack ++ es)
unfolding clean_elements
clean_elements-no_up stack [] h ne = ([], tt, sym (append-nil _))
clean_elements-no_up stack (f ∷ fs) h ne = elim (clean_element_kept stack f h.0 ne.0) [
  | inl skipped ↦
      let (es, normal, shape) = clean_elements-no_up stack fs h.1 ne.1 in
      (es, normal, ap (λ st. clean_elements true st fs) skipped ∙ shape)
  | inr (n, pushed) ↦
      let (es, normal, shape) = clean_elements-no_up (f ∷ stack) fs h.1 ne.1 in
      (
        f ∷ es,
        (n, normal),
        ap (λ st. clean_elements true st fs) pushed
            ∙ (shape
                ∙ (ap (λ l. l ++ es) (reverse-cons f stack)
                    ∙ append_assoc (reverse stack) (f ∷ []) es)),
      )
]

pub split-fragments : (p : Text) → All IsFragment (split p)
unfolding split
split-fragments [] = (tt, tt)
split-fragments (c ∷ p) = elim (Bool-cases (c == slash)) [
  | inl here ↦ rw here (tt, split-fragments p)
  | inr away ↦
      rw away (starts c (split p) (λ e. ground (arith, ==_iff c slash)) (split-fragments p))
]
  where
    starts :
        (c : ℕ) (fs : List Text)
        → c ≢ slash
        → All IsFragment fs
        → All IsFragment (start_fragment c fs)
    starts c [] ne h = ((ne, tt), tt)
    starts c (f ∷ fs) ne h = ((ne, h.0), h.1)

popped :
    (stack : List Text) → All IsNormal stack → All IsNormal (clean_element true stack (codes ".."))
unfolding clean_element go_up text_eq
popped [] h = tt
popped (top ∷ below) h = elim (Bool-cases (text_eq top (codes ".."))) [
  | inl up ↦ absurd (h.0.no_up ((text_eq_iff top (codes "..")).0 up))
  | inr other ↦ rw other h.1
]

-- The elements that are kept of a rooted path are normal.
clean_element-All :
    (stack : List Text) (f : Text)
    → All IsNormal stack
    → IsFragment f
    → All IsNormal (clean_element true stack f)
clean_element-All stack f h n = elim (Bool-cases (text_eq f (codes ".."))) [
  | inl up ↦
      let e = (text_eq_iff f (codes "..")).0 up in
      subst (λ g. All IsNormal (clean_element true stack g)) (sym e) (popped stack h)
  | inr other ↦
      elim (clean_element_kept stack f n (λ e. let same = (text_eq_iff f (codes "..")).1 e in cc)) [
        | inl skipped ↦ rw skipped h
        | inr (normal, pushed) ↦ rw pushed (normal, h)
      ]
]

pub clean_elements-All :
    (stack fs : List Text)
    → All IsNormal stack
    → All IsFragment fs
    → All IsNormal (clean_elements true stack fs)
unfolding clean_elements
clean_elements-All stack [] h n = reversed stack [] h tt
  where
    reversed :
        (xs ys : List Text) → All IsNormal xs → All IsNormal ys → All IsNormal (reverse_aux xs ys)
    reversed [] ys hx hy = hy
    reversed (x ∷ xs) ys hx hy = reversed xs (x ∷ ys) hx.1 (hx.0, hy)
clean_elements-All stack (f ∷ fs) h n =
    clean_elements-All (clean_element true stack f) fs (clean_element-All stack f h n.0) n.1

pub split-join :
    (f : Text) (fs : List Text) → IsFragment f → All IsFragment fs → split (join (f ∷ fs)) ≡ f ∷ fs
unfolding join
split-join f [] h hs = split-fragment f h
split-join f (g ∷ fs) h hs =
    split-cons f (join (g ∷ fs)) h ∙ ap (λ l. f ∷ l) (split-join g fs hs.0 hs.1)

pub split-join-append :
    (f : Text) (fs : List Text) (rest : Text)
    → IsFragment f
    → All IsFragment fs
    → split (join (f ∷ fs) ++ (slash ∷ rest)) ≡ (f ∷ fs) ++ split rest
unfolding join
split-join-append f [] rest h hs = split-cons f rest h
split-join-append f (g ∷ fs) rest h hs =
    ap split (append_assoc f (slash ∷ join (g ∷ fs)) (slash ∷ rest))
    ∙ (split-cons f (join (g ∷ fs) ++ (slash ∷ rest)) h
        ∙ ap (λ l. f ∷ l) (split-join-append g fs rest hs.0 hs.1))

pub no_slashes : (fs : List Text) → All IsNormal fs → All IsFragment fs
no_slashes [] h = tt
no_slashes (f ∷ fs) h = (h.0.no_slash, no_slashes fs h.1)
