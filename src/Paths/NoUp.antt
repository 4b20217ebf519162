-- ===== src/Paths/NoUp.antt =====
-- Where paths hold no element `..`.
use selenoid.Base.{
  ◌≡◌, refl, ◌≢◌, sym, ◌∙◌, true, List, [], ◌∷◌, ◌++◌, Text, codes, arith, All, All-append,
  Bool-cases, inl, inr, ==_iff, ◌==◌, has_prefix, after_prefix, trim_prefix,
}
use mathlib.Core.List.{append_assoc}
use mathlib.Core.Path.{subst}
use selenoid.Paths.{slash, split, join, clean}
use selenoid.Paths.Clean.{NoUp, clean-rooted}
use selenoid.Paths.Elements.{
  IsNormal, rooted, split-fragments, clean_elements-All, split-join, split-join-append, no_slashes,
}

no_ups : (fs : List Text) → All IsNormal fs → All (λ f. f ≢ codes "..") fs
no_ups [] h = tt
no_ups (f ∷ fs) h = (h.0.no_up, no_ups fs h.1)

nil-ne-up : ◌≢◌ {A = Text} [] (codes "..")
nil-ne-up e = cc

join-NoUp : (es : List Text) → All IsNormal es → NoUp (join es)
unfolding split join
join-NoUp [] h = (nil-ne-up, tt)
join-NoUp (e ∷ es) h =
    subst (All (λ f. f ≢ codes "..")) (sym (split-join e es h.0.no_slash (no_slashes es h.1)))
      (no_ups (e ∷ es) h)

slashed-NoUp : (es : List Text) → All IsNormal es → NoUp (join es ++ (slash ∷ []))
unfolding split join
slashed-NoUp [] h = (nil-ne-up, (nil-ne-up, tt))
slashed-NoUp (e ∷ es) h =
    subst (All (λ f. f ≢ codes ".."))
      (sym (split-join-append e es [] h.0.no_slash (no_slashes es h.1)))
      (All-append (λ f. f ≢ codes "..") (e ∷ es) ([] ∷ []) (no_ups (e ∷ es) h) (nil-ne-up, tt))

rooted-NoUp :
    (es : List Text) → All IsNormal es → NoUp (rooted es) × NoUp (rooted es ++ (slash ∷ []))
unfolding split
rooted-NoUp es h = ((nil-ne-up, join-NoUp es h), (nil-ne-up, slashed-NoUp es h))

-- A cleaned rooted path holds no `..`, nor does it where a slash is put behind it.
pub clean-NoUp : (p : Text) → NoUp (clean (slash ∷ p)) × NoUp (clean (slash ∷ p) ++ (slash ∷ []))
clean-NoUp p =
    rw (clean-rooted p) (rooted-NoUp _ (clean_elements-All [] (split p) tt (split-fragments p)))

-- What stands behind a slash is split on its own.
split-behind :
    (q rest : Text)
    → (f : Text) × (fs : List Text) × (split (q ++ (slash ∷ rest)) ≡ f ∷ (fs ++ split rest))
unfolding split
split-behind [] rest = ([], [], refl)
split-behind (c ∷ q) rest =
    let (f, fs, e) = split-behind q rest in
    elim (Bool-cases (c == slash)) [
      | inl here ↦ ([], f ∷ fs, rw (here, e) refl)
      | inr away ↦ (c ∷ f, fs, rw (away, e) refl)
    ]

All-behind : {A : Type 0} (P : A → Type 0) (xs ys : List A) → All P (xs ++ ys) → All P ys
All-behind P [] ys h = h
All-behind P (x ∷ xs) ys h = All-behind P xs ys h.1

pub NoUp-behind : (q rest : Text) → NoUp (q ++ (slash ∷ rest)) → NoUp rest
NoUp-behind q rest h =
    let (f, fs, e) = split-behind q rest in
    All-behind (λ f. f ≢ codes "..") fs (split rest) (subst (All (λ f. f ≢ codes "..")) e h).1

prefixed : (p prefix : Text) → has_prefix p prefix ≡ true → prefix ++ after_prefix p prefix ≡ p
unfolding has_prefix after_prefix
prefixed p [] h = refl
prefixed [] (q ∷ prefix) h = absurd (cc)
prefixed (c ∷ p) (q ∷ prefix) h = ground (arith, ==_iff c q, prefixed p prefix)

-- Nor does a tree's prefix taken off bring `..` in.
pub trim-NoUp : (p q : Text) → NoUp p → NoUp (trim_prefix p (q ++ (slash ∷ [])))
unfolding trim_prefix
trim-NoUp p q h = elim (Bool-cases (has_prefix p (q ++ (slash ∷ [])))) [
  | inl there ↦ rw there (
      NoUp-behind q (after_prefix p (q ++ (slash ∷ []))) (
        subst NoUp
          (sym (prefixed p (q ++ (slash ∷ [])) there)
            ∙ append_assoc q (slash ∷ []) (after_prefix p (q ++ (slash ∷ []))))
          h))
  | inr not_there ↦ rw not_there h
]
