-- ===== src/Create/Body/FieldLaws.antt =====
-- Laws of the fields of a JSON object.
use selenoid.Base.{
  ◌≡◌, refl, ◌≢◌, ◌∙◌, false, none, some, Text, text_eq, text_eq_iff, text_eq_refl, if◌then◌else◌,
  arith, Bool-cases, inl, inr,
}
use selenoid.Json.{Json, Fields, end, field}
use selenoid.Create.Body.{get_field, set_field, delete_field, update_field}

pub get_field-set_field :
    (k j : Text) (v : Json) (fs : Fields)
    → get_field j (set_field k v fs) ≡ (if text_eq k j then some v else get_field j fs)
unfolding get_field set_field
get_field-set_field k j v end = refl
get_field-set_field k j v (field i w fs) =
    ground (arith, text_eq_iff k j, text_eq_iff i k, text_eq_iff i j, get_field-set_field k j v fs)

pub get_field-set_field_self :
    (k : Text) (v : Json) (fs : Fields) → get_field k (set_field k v fs) ≡ some v
get_field-set_field_self k v fs = simp (get_field-set_field, text_eq_refl)

pub get_field-set_field_other :
    (k j : Text) (v : Json) (fs : Fields)
    → text_eq k j ≡ false
    → get_field j (set_field k v fs) ≡ get_field j fs
get_field-set_field_other k j v fs e = get_field-set_field k j v fs ∙ rw e

pub get_field-delete_field_self : (k : Text) (fs : Fields) → get_field k (delete_field k fs) ≡ none
unfolding get_field delete_field
get_field-delete_field_self k end = refl
get_field-delete_field_self k (field i w fs) =
    ground (arith, text_eq_iff i k, get_field-delete_field_self k fs)

-- What was not there is not there behind a deletion.
pub delete_field_keeps_absent :
    (k j : Text) (fs : Fields) → get_field j fs ≡ none → get_field j (delete_field k fs) ≡ none
unfolding get_field delete_field
delete_field_keeps_absent k j end e = refl
delete_field_keeps_absent k j (field i w fs) e =
    ground (arith, text_eq_iff i k, text_eq_iff i j, delete_field_keeps_absent k j fs)

pub get_field-update_field_self :
    (k : Text) (f : Json → Json) (fs : Fields) (v : Json)
    → get_field k (update_field k f fs) ≡ some v
    → (w : Json) × (get_field k fs ≡ some w) × (v ≡ f w)
unfolding get_field update_field
get_field-update_field_self k f end v e = absurd (cc)
get_field-update_field_self k f (field i w fs) v e = elim (Bool-cases (text_eq i k)) [
  | inl here ↦ (w, rw here, ground (arith, here))
  | inr away ↦
      let (u, there, is) = get_field-update_field_self k f fs v (ground (arith, away)) in
      (u, rw away there, is)
]

pub get_field-update_field_other :
    (k j : Text) (f : Json → Json) (fs : Fields)
    → k ≢ j
    → get_field j (update_field k f fs) ≡ get_field j fs
unfolding get_field update_field
get_field-update_field_other k j f end ne = refl
get_field-update_field_other k j f (field i w fs) ne =
    ground (arith, ne, text_eq_iff i k, text_eq_iff i j, get_field-update_field_other k j f fs ne)
