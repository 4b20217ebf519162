-- ===== src/Create/Body/Hidden.antt =====
-- What `removeSelenoidOptions` of selenoid.go keeps from the browser.
use selenoid.Base.{◌≡◌, ap, sym, ◌∙◌, none, some, Text, codes, Bool-cases, inl, inr}
use mathlib.Core.Path.{subst}
use selenoid.Json.{
  Json, Items, Fields, null, bool, num, str, arr, obj, nil, cons, JsonCodec, ReadsBack,
}
use selenoid.Create.Body.{
  get_field, update_field, on_object, on_items, on_array, strip, strip_w3c, strip_body,
  remove_safari_browser_name, is_safari, has, remove_selenoid_options, stripped,
}
use selenoid.Create.Body.FieldLaws.{
  get_field-delete_field_self, delete_field_keeps_absent, get_field-update_field_self,
  get_field-update_field_other,
}

abbrev pub selenoid_options : Text
selenoid_options = codes "selenoid:options"

safari_keeps :
    (caps : Fields) (k : Text)
    → get_field k caps ≡ none
    → get_field k (remove_safari_browser_name caps) ≡ none
unfolding remove_safari_browser_name
safari_keeps caps k e = elim (Bool-cases (is_safari (get_field (codes "browserName") caps))) [
  | inr other ↦ rw other e
  | inl safari ↦ elim (Bool-cases (has (get_field (codes "appium:bundleId") caps))) [
    | inl bundle ↦ rw (safari, bundle) (delete_field_keeps_absent (codes "browserName") k caps e)
    | inr no_bundle ↦ elim (Bool-cases (has (get_field (codes "appium:app") caps))) [
      | inl app ↦
          rw (safari, no_bundle, app) (delete_field_keeps_absent (codes "browserName") k caps e)
      | inr no_app ↦ rw (safari, no_bundle, no_app) e
    ]
  ]
]

strip_hides : (caps : Fields) → get_field selenoid_options (strip caps) ≡ none
unfolding strip
strip_hides caps =
    safari_keeps _ selenoid_options (get_field-delete_field_self selenoid_options caps)

-- The value is no object with the options of Selenoid.
abbrev pub Hides : Json → Type 0
Hides (obj caps) = get_field selenoid_options caps ≡ none
Hides _ = Unit {0}

abbrev pub AllHide : Items → Type 0
AllHide nil = Unit {0}
AllHide (cons j js) = Hides j × AllHide js

abbrev pub HidesEach : Json → Type 0
HidesEach (arr js) = AllHide js
HidesEach _ = Unit {0}

on_object-Hides : (j : Json) → Hides (on_object strip j)
unfolding on_object
on_object-Hides null = tt
on_object-Hides (bool b) = tt
on_object-Hides (num n) = tt
on_object-Hides (str t) = tt
on_object-Hides (arr js) = tt
on_object-Hides (obj fs) = strip_hides fs

items_hide : (js : Items) → AllHide (on_items strip js)
unfolding on_items
items_hide nil = tt
items_hide (cons j js) = (on_object-Hides j, items_hide js)

array_hides : (j : Json) → HidesEach (on_array strip j)
unfolding on_array
array_hides null = tt
array_hides (bool b) = tt
array_hides (num n) = tt
array_hides (str t) = tt
array_hides (arr js) = items_hide js
array_hides (obj fs) = tt

-- An object of a body stands where it stood before.
changed :
    (k : Text) (f : Json → Json) (fs : Fields) (P : Json → Type 0)
    → ((w : Json) → P (f w))
    → (v : Json) → get_field k (update_field k f fs) ≡ some v
    → P v
changed k f fs P h v e =
    let (w, there, is) = get_field-update_field_self k f fs v e in subst P (sym is) (h w)

-- The capabilities of W3C.
W3cHides : Json → Type 0
W3cHides (obj c) =
    ((v : Json) → get_field (codes "alwaysMatch") c ≡ some v → Hides v)
    × ((v : Json) → get_field (codes "firstMatch") c ≡ some v → HidesEach v)
W3cHides _ = Unit {0}

w3c_fields_hide : (c : Fields) → W3cHides (obj (strip_w3c c))
unfolding W3cHides strip_w3c
w3c_fields_hide c =
    let before = update_field (codes "alwaysMatch") (on_object strip) c in
    (
      λ v e. changed (codes "alwaysMatch") (on_object strip) c Hides on_object-Hides v (
          sym (
            get_field-update_field_other (codes "firstMatch") (codes "alwaysMatch") (on_array strip)
              before (λ same. cc))
          ∙ e),
      λ v e. changed (codes "firstMatch") (on_array strip) before HidesEach array_hides v e,
    )

w3c_hides : (w : Json) → W3cHides (on_object strip_w3c w)
unfolding on_object
w3c_hides null = unfold W3cHides in tt
w3c_hides (bool b) = unfold W3cHides in tt
w3c_hides (num n) = unfold W3cHides in tt
w3c_hides (str t) = unfold W3cHides in tt
w3c_hides (arr js) = unfold W3cHides in tt
w3c_hides (obj fs) = w3c_fields_hide fs

strip_body-Hides :
    (body : Fields)
    → ((v : Json) → get_field (codes "desiredCapabilities") (strip_body body) ≡ some v → Hides v)
      × ((c : Fields)
          → get_field (codes "capabilities") (strip_body body) ≡ some (obj c)
          → ((v : Json) → get_field (codes "alwaysMatch") c ≡ some v → Hides v)
            × ((v : Json) → get_field (codes "firstMatch") c ≡ some v → HidesEach v))
unfolding strip_body
strip_body-Hides body =
    let before = update_field (codes "desiredCapabilities") (on_object strip) body in
    (
      λ v e. changed (codes "desiredCapabilities") (on_object strip) body Hides on_object-Hides v (
          sym (
            get_field-update_field_other (codes "capabilities") (codes "desiredCapabilities")
              (on_object strip_w3c) before (λ same. cc))
          ∙ e),
      λ c e.
          unfold W3cHides in
          changed (codes "capabilities") (on_object strip_w3c) before W3cHides w3c_hides (obj c) e,
    )

-- The body that the browser gets is an object again, where that of the client is one, and neither the
-- capabilities of the old protocol, nor those of W3C that must match, nor any of those of which one must,
-- hold the options of Selenoid.
pub remove_selenoid_options-Hides :
    (json : JsonCodec) (input : Text) (body : Fields)
    → ReadsBack json
    → json.unmarshal input ≡ some (obj body)
    → (sent : Fields) × (json.unmarshal (remove_selenoid_options json input) ≡ some (obj sent))
      × ((v : Json) → get_field (codes "desiredCapabilities") sent ≡ some v → Hides v)
      × ((c : Fields)
          → get_field (codes "capabilities") sent ≡ some (obj c)
          → ((v : Json) → get_field (codes "alwaysMatch") c ≡ some v → Hides v)
            × ((v : Json) → get_field (codes "firstMatch") c ≡ some v → HidesEach v))
unfolding remove_selenoid_options stripped
remove_selenoid_options-Hides json input body reads e =
    let (old, w3c) = strip_body-Hides body in
    (
      strip_body body,
      ap (λ j. json.unmarshal (json.marshal (stripped j))) e ∙ reads (obj (strip_body body)),
      old,
      w3c,
    )
