-- ===== src/Json/Prefix.antt =====
-- An encoding of JSON values in prefix form, which is read back: what the code relies on of
-- `encoding/json` can hold.
use selenoid.Base.{
  ℕ, zero, suc, ◌+◌, ◌≤◌, ◌≡◌, refl, ap, ◌∙◌, true, false, Option, none, some, List, [], ◌∷◌, ◌++◌,
  Text, length, take, drop, arith, take-append, drop-append,
}
use selenoid.Json.{
  Json, Items, Fields, null, bool, num, str, arr, obj, nil, cons, end, field, JsonCodec, ReadsBack,
}

mutual
  encode : Json → List ℕ → List ℕ
  encode null k = 0 ∷ k
  encode (bool false) k = 1 ∷ k
  encode (bool true) k = 2 ∷ k
  encode (num t) k = 3 ∷ length t ∷ (t ++ k)
  encode (str t) k = 4 ∷ length t ∷ (t ++ k)
  encode (arr js) k = 5 ∷ encode_items js k
  encode (obj fs) k = 6 ∷ encode_fields fs k

  encode_items : Items → List ℕ → List ℕ
  encode_items nil k = 0 ∷ k
  encode_items (cons j js) k = 1 ∷ encode j (encode_items js k)

  encode_fields : Fields → List ℕ → List ℕ
  encode_fields end k = 0 ∷ k
  encode_fields (field t j fs) k = 1 ∷ length t ∷ (t ++ encode j (encode_fields fs k))

-- The depth that a reader needs.
mutual
  size : Json → ℕ
  size null = 1
  size (bool b) = 1
  size (num t) = 1
  size (str t) = 1
  size (arr js) = 1 + size_items js
  size (obj fs) = 1 + size_fields fs

  size_items : Items → ℕ
  size_items nil = 1
  size_items (cons j js) = 1 + size j + size_items js

  size_fields : Fields → ℕ
  size_fields end = 1
  size_fields (field t j fs) = 1 + size j + size_fields fs

abbrev with_rest {ℓ} : {A : Type ℓ} → (A → Json) → Option (A × List ℕ) → Option (Json × List ℕ)
with_rest f none = none
with_rest f (some (x, k)) = some (f x, k)

abbrev and_items : Json → Option (Items × List ℕ) → Option (Items × List ℕ)
and_items j none = none
and_items j (some (js, k)) = some (cons j js, k)

abbrev and_fields : Text → Json → Option (Fields × List ℕ) → Option (Fields × List ℕ)
and_fields t j none = none
and_fields t j (some (fs, k)) = some (field t j fs, k)

mutual
  decode : ℕ → List ℕ → Option (Json × List ℕ)
  decode zero s = none
  decode (suc n) [] = none
  decode (suc n) (zero ∷ k) = some (null, k)
  decode (suc n) ((suc zero) ∷ k) = some (bool false, k)
  decode (suc n) ((suc (suc zero)) ∷ k) = some (bool true, k)
  decode (suc n) ((suc (suc (suc zero))) ∷ l ∷ k) = some (num (take l k), drop l k)
  decode (suc n) ((suc (suc (suc (suc zero)))) ∷ l ∷ k) = some (str (take l k), drop l k)
  decode (suc n) ((suc (suc (suc (suc (suc zero))))) ∷ k) = with_rest arr (decode_items n k)
  decode (suc n) ((suc (suc (suc (suc (suc (suc zero)))))) ∷ k) = with_rest obj (decode_fields n k)
  decode (suc n) _ = none

  decode_items : ℕ → List ℕ → Option (Items × List ℕ)
  decode_items zero s = none
  decode_items (suc n) (zero ∷ k) = some (nil, k)
  decode_items (suc n) ((suc zero) ∷ k) = elim (decode n k) [
    | none ↦ none
    | some (j, r) ↦ and_items j (decode_items n r)
  ]
  decode_items (suc n) _ = none

  decode_fields : ℕ → List ℕ → Option (Fields × List ℕ)
  decode_fields zero s = none
  decode_fields (suc n) (zero ∷ k) = some (end, k)
  decode_fields (suc n) ((suc zero) ∷ l ∷ k) = elim (decode n (drop l k)) [
    | none ↦ none
    | some (j, r) ↦ and_fields (take l k) j (decode_fields n r)
  ]
  decode_fields (suc n) _ = none

-- A value that was written is read back, whatever follows it.
mutual
  unfolding decode encode size decode_items decode_fields encode_items encode_fields size_items
      size_fields

  decode-encode : (j : Json) (k : List ℕ) (n : ℕ) → size j ≤ n → decode n (encode j k) ≡ some (j, k)
  decode-encode null k zero h = absurd (omega arith)
  decode-encode null k (suc n) h = refl
  decode-encode (bool b) k zero h = absurd (omega arith)
  decode-encode (bool false) k (suc n) h = refl
  decode-encode (bool true) k (suc n) h = refl
  decode-encode (num t) k zero h = absurd (omega arith)
  decode-encode (num t) k (suc n) h = rw (take-append t k, drop-append t k)
  decode-encode (str t) k zero h = absurd (omega arith)
  decode-encode (str t) k (suc n) h = rw (take-append t k, drop-append t k)
  decode-encode (arr js) k zero h = absurd (omega arith)
  decode-encode (arr js) k (suc n) h = rw (decode-encode_items js k n (omega arith))
  decode-encode (obj fs) k zero h = absurd (omega arith)
  decode-encode (obj fs) k (suc n) h = rw (decode-encode_fields fs k n (omega arith))

  decode-encode_items :
      (js : Items) (k : List ℕ) (n : ℕ)
      → size_items js ≤ n
      → decode_items n (encode_items js k) ≡ some (js, k)
  decode-encode_items nil k zero h = absurd (omega arith)
  decode-encode_items nil k (suc n) h = refl
  decode-encode_items (cons j js) k zero h = absurd (omega arith)
  decode-encode_items (cons j js) k (suc n) h = rw (
    decode-encode j (encode_items js k) n (omega arith),
    decode-encode_items js k n (omega arith),
  )

  decode-encode_fields :
      (fs : Fields) (k : List ℕ) (n : ℕ)
      → size_fields fs ≤ n
      → decode_fields n (encode_fields fs k) ≡ some (fs, k)
  decode-encode_fields end k zero h = absurd (omega arith)
  decode-encode_fields end k (suc n) h = refl
  decode-encode_fields (field t j fs) k zero h = absurd (omega arith)
  decode-encode_fields (field t j fs) k (suc n) h =
      let rest = encode_fields fs k in
      let reader = decode n in
      let first : reader (drop (length t) (t ++ encode j rest)) ≡ some (j, rest) =
        ap (decode n) (drop-append t (encode j rest)) ∙ decode-encode j rest n (omega arith) in
      let text : take (length t) (t ++ encode j rest) ≡ t = take-append t (encode j rest) in
      ap
        (λ o. elim o as (λ _. Option (Fields × List ℕ)) [
          | none ↦ none
          | some (j', r) ↦ and_fields (take (length t) (t ++ encode j rest)) j' (decode_fields n r)
        ])
        first
      ∙ ap (λ o. and_fields (take (length t) (t ++ encode j rest)) j o)
          (decode-encode_fields fs k n (omega arith))
      ∙ ap (λ u. some (field u j fs, k)) text

abbrev value_of : Option (Json × List ℕ) → Option Json
value_of none = none
value_of (some (j, k)) = some j

unmarshal_prefix : List ℕ → Option Json
unmarshal_prefix [] = none
unmarshal_prefix (n ∷ s) = value_of (decode n s)

pub prefix_json : JsonCodec
unfolding encode size unmarshal_prefix
prefix_json = record { marshal = λ j. size j ∷ encode j []; unmarshal = unmarshal_prefix }

pub prefix_json-ReadsBack : ReadsBack prefix_json
unfolding prefix_json unmarshal_prefix
prefix_json-ReadsBack j = ap value_of (decode-encode j [] (size j) (omega arith))
