-- ===== src/Json.antt =====
-- JSON values, as `encoding/json` hands them over: `interface{}` with its dynamic type.
pub mod Prefix
use selenoid.Base.{ℕ, Bool, Text, Option, some, List, ◌≡◌}

mutual
  pub data Json : Type 0 where
    null : Json
    bool : Bool → Json
    num : Text → Json  -- the literal
    str : Text → Json
    arr : Items → Json
    obj : Fields → Json

  pub data Items : Type 0 where
    nil : Items
    cons : Json → Items → Items

  pub data Fields : Type 0 where
    end : Fields
    field : Text → Json → Fields → Fields

-- The encoder and the decoder of the standard library between values and bytes; `unmarshal` fails
-- on what is no JSON value.
pub record JsonCodec : Type 0 where
  pub marshal : Json → List ℕ
  pub unmarshal : List ℕ → Option Json

-- What the code relies on: a value that was written is read back.
abbrev pub ReadsBack : JsonCodec → Type 0
ReadsBack c = (j : Json) → c.unmarshal (c.marshal j) ≡ some j
