-- ===== src/Json.antt =====
-- Values of JavaScript as they stand in JSON, and `undefined`. An object is its own properties in
-- their order. A number is a natural number.
use talent_flow_ai_backend.Prelude.{ℕ, String, Bool, true, false, not, nat_eq, ◌==◌, if◌then◌else◌}

mutual
  pub data Json : Type 0 where
    undefined null : Json
    boolean : Bool → Json
    number : ℕ → Json
    string : String → Json
    array : Items → Json
    object : Fields → Json

  pub data Items : Type 0 where
    [] : Items
    ◌∷◌ : Json → Items → Items

  pub data Fields : Type 0 where
    no_fields : Fields
    field : String → Json → Fields → Fields

-- `typeof value === 'object' && value !== null`
abbrev pub is_object : Json → Bool
is_object (array xs) = true
is_object (object fs) = true
is_object _ = false

-- `value || …`
abbrev pub is_truthy : Json → Bool
is_truthy undefined = false
is_truthy null = false
is_truthy (boolean b) = b
is_truthy (number n) = not (nat_eq n 0)
is_truthy (string s) = not (s == "")
is_truthy _ = true

-- `value.key`, on an object
unfoldable pub property : String → Fields → Json
property k no_fields = undefined
property k (field j v fs) = if j == k then v else property k fs
