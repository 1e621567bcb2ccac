-- ===== src/Model/Json.antt =====
-- `serde_json::Value`. A number stands for its canonical text. An object is its entries in the order of
-- the map; the parser gives each key once.
use threadmark.Common.{String, Bool, true, false, Option, none, some, ◌==◌, if◌then◌else◌}

mutual
  pub data Value : Type 0 where
    null : Value
    bool : Bool → Value
    number : String → Value
    string : String → Value
    array : Values → Value
    object : Fields → Value

  pub data Values : Type 0 where
    nil : Values
    cons : Value → Values → Values

  pub data Fields : Type 0 where
    end : Fields
    field : String → Value → Fields → Fields

abbrev pub is_object : Value → Bool
is_object (object fs) = true
is_object _ = false

abbrev pub as_str : Value → Option String
as_str (string s) = some s
as_str _ = none

-- `Map::get`
unfoldable pub get : Fields → String → Option Value
get end k = none
get (field j v fs) k = let rest = get fs k in if j == k then some v else rest

-- `Map::remove`
unfoldable pub remove_key : String → Fields → Fields
remove_key k end = end
remove_key k (field j v fs) = let rest = remove_key k fs in if j == k then rest else field j v rest
