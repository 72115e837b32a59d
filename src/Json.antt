-- ===== src/Json.antt =====
-- Parsed JSON, as the codecs build it and the schemas read it.
use vguardrail.Base.{ℕ, String, Bool, Option, none, some, List, [], ◌∷◌}
use vguardrail.Base.Number.{Number}

mutual
  pub data Json : Type 0 where
    null : Json
    bool : Bool → Json
    num : Number → Json
    str : String → Json
    text : List ℕ → Json  -- a string that the program cuts or joins, as UTF-16 code units
    arr : Items → Json
    obj : Fields → Json

  pub data Items : Type 0 where
    nil : Items
    cons : Json → Items → Items

  pub data Fields : Type 0 where
    end : Fields
    field : String → Json → Fields → Fields

-- A JavaScript array or object whose elements are given by lists.
abbrev pub array : List Json → Items
array [] = nil
array (x ∷ xs) = cons x (array xs)

abbrev pub object : List (String × Json) → Fields
object [] = end
object ((k, v) ∷ r) = field k v (object r)

-- `compact` (connector-sdk/src/models/schema.ts): entries whose value is undefined are left out.
unfoldable pub compact : List (String × Option Json) → Fields
compact [] = end
compact ((k, none) ∷ r) = compact r
compact ((k, some v) ∷ r) = field k v (compact r)
