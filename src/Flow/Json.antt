-- ===== src/Flow/Json.antt =====
-- The JSON values that flow definitions and contexts carry. The type has serde_json's constructors;
-- its equality and the text of a number belong to serde_json and are parameters (`Serde`).
use geonosis.Base.{
  ℕ, String, Bool, Option, none, some, List, [], ◌∷◌, if◌then◌else◌, ◌==◌, string_eq,
}
use geonosis.Base.Int.{ℤ, pos, negsuc}

-- `Float` is the bit pattern of the f64.
pub data Number : Type 0 where
  pos_int neg_int float : ℕ → Number

mutual
  pub data Value : Type 0 where
    null : Value
    bool : Bool → Value
    number : Number → Value
    string : String → Value
    array : Items → Value
    object : Fields → Value

  pub data Items : Type 0 where
    nil : Items
    cons : Value → Items → Items

  pub data Fields : Type 0 where
    end : Fields
    field : String → Value → Fields → Fields

-- What the guards use of serde_json: `==` on values and `Number::to_string`.
pub record Serde : Type 0 where
  pub value_eq : Value → Value → Bool
  pub number_text : Number → String

find_field : String → Fields → Option Value
find_field k end = none
find_field k (field j v rest) = if j == k then some v else find_field k rest

-- `Value::get(&str)`: a member of an object, and nothing of any other value.
unfoldable pub get : Value → String → Option Value
unfolding find_field
get (object fields) k = find_field k fields
get _ k = none

-- `json!` of an i32.
abbrev pub of_ℤ : ℤ → Value
of_ℤ (pos n) = number (pos_int n)
of_ℤ (negsuc n) = number (neg_int n)

abbrev pub of_option : Option String → Value
of_option none = null
of_option (some s) = string s

abbrev pub of_strings : List String → Items
of_strings [] = nil
of_strings (s ∷ rest) = cons (string s) (of_strings rest)

abbrev pub of_entries : List (String × Value) → Fields
of_entries [] = end
of_entries ((k, v) ∷ rest) = field k v (of_entries rest)
