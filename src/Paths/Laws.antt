-- ===== src/Paths/Laws.antt =====
-- Laws of splitting at slashes.
use selenoid.Base.{
  ℕ, ◌≡◌, refl, ◌≢◌, ap, ◌∙◌, List, [], ◌∷◌, ◌++◌, Text, arith, All, ◌==◌, Bool-cases, inl, inr,
  ◌⊎◌, ==_iff,
}
use selenoid.Paths.{slash, split, join, start_fragment}

-- No slash inside.
abbrev pub IsFragment : Text → Type 0
IsFragment f = All (λ c. c ≢ slash) f

-- `split` never yields the empty list.
start_fragment-join : (c : ℕ) (fs : List Text) → fs ≢ [] → join (start_fragment c fs) ≡ c ∷ join fs
unfolding join
start_fragment-join c [] ne = absurd (ne refl)
start_fragment-join c (f ∷ []) ne = refl
start_fragment-join c (f ∷ g ∷ fs) ne = refl

split-cases :
    (c : ℕ) (p : Text)
    → ((c ≡ slash) × (split (c ∷ p) ≡ [] ∷ split p))
      ⊎ ((c ≢ slash) × (split (c ∷ p) ≡ start_fragment c (split p)))
unfolding split
split-cases c p = elim (Bool-cases (c == slash)) [
  | inl here ↦ inl ((==_iff c slash).0 here, rw here)
  | inr away ↦ inr (λ e. ground arith, rw away)
]

start_fragment-ne-nil : (c : ℕ) (fs : List Text) → start_fragment c fs ≢ []
start_fragment-ne-nil c [] e = cc
start_fragment-ne-nil c (f ∷ fs) e = cc

split-ne-nil : (p : Text) → split p ≢ []
split-ne-nil [] = unfold split in (λ e. cc)
split-ne-nil (c ∷ p) = elim (split-cases c p) [
  | inl (here, shape) ↦ rw shape (λ e. cc)
  | inr (away, shape) ↦ rw shape (start_fragment-ne-nil c (split p))
]

nil_fragment-join : (fs : List Text) → fs ≢ [] → join ([] ∷ fs) ≡ slash ∷ join fs
unfolding join
nil_fragment-join [] ne = absurd (ne refl)
nil_fragment-join (f ∷ fs) ne = refl

-- Joining the fragments gives the path back.
pub join-split : (p : Text) → join (split p) ≡ p
join-split [] = unfold split join in refl
join-split (c ∷ p) = elim (split-cases c p) [
  | inl (here, shape) ↦
      rw shape (nil_fragment-join (split p) (split-ne-nil p) ∙ cc (here, join-split p))
  | inr (away, shape) ↦
      rw shape (start_fragment-join c (split p) (split-ne-nil p) ∙ cc (join-split p))
]

pub split-fragment : (f : Text) → IsFragment f → split f ≡ f ∷ []
unfolding split
split-fragment [] h = refl
split-fragment (c ∷ f) h = ground (arith, split-fragment f h.1, h.0)

pub split-cons : (f rest : Text) → IsFragment f → split (f ++ (slash ∷ rest)) ≡ f ∷ split rest
unfolding split
split-cons [] rest h = refl
split-cons (c ∷ f) rest h = ground (arith, split-cons f rest h.1, h.0)

-- A path of fragments and a rest that may hold slashes.
pub split_three :
    (a sid rest : Text)
    → IsFragment a
    → IsFragment sid
    → split (slash ∷ (a ++ (slash ∷ (sid ++ (slash ∷ rest))))) ≡ [] ∷ a ∷ sid ∷ split rest
split_three a sid rest ha hs =
    split-cons [] _ tt
    ∙ ap (λ fs. [] ∷ fs) (split-cons a _ ha ∙ ap (λ fs. a ∷ fs) (split-cons sid rest hs))
