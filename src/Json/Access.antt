-- ===== src/Json/Access.antt =====
-- The member functions of `JsonValue` in middleware/src/nonworking_json.cpp that read: the name of the
-- type, and the accessors, on a value that was not moved from. An accessor of another alternative
-- throws, here `none`.
use cpp_examples.Prelude.{ℕ, Bool, true, false, Option, none, some, List}
use cpp_examples.Prelude.Int.{ℤ}
use cpp_examples.Json.Value.{
  JsonValue, JsonArray, JsonObject, null, boolean, long, double, string, array, object,
}

-- The alternatives of the variant; `type_name` spells them.
pub data TypeName : Type 0 where
  null_name bool_name long_long_name double_name string_name array_name object_name : TypeName

module _ {Double : Type 0} where
  unfoldable pub type_name : JsonValue Double → TypeName
  type_name null = null_name
  type_name (boolean b) = bool_name
  type_name (long i) = long_long_name
  type_name (double d) = double_name
  type_name (string s) = string_name
  type_name (array arr) = array_name
  type_name (object obj) = object_name

  unfoldable pub is_null : JsonValue Double → Bool
  is_null null = true
  is_null _ = false

  unfoldable pub is_bool : JsonValue Double → Bool
  is_bool (boolean b) = true
  is_bool _ = false

  unfoldable pub is_long : JsonValue Double → Bool
  is_long (long i) = true
  is_long _ = false

  unfoldable pub is_double : JsonValue Double → Bool
  is_double (double d) = true
  is_double _ = false

  unfoldable pub is_string : JsonValue Double → Bool
  is_string (string s) = true
  is_string _ = false

  unfoldable pub is_array : JsonValue Double → Bool
  is_array (array arr) = true
  is_array _ = false

  unfoldable pub is_object : JsonValue Double → Bool
  is_object (object obj) = true
  is_object _ = false

  unfoldable pub get_bool : JsonValue Double → Option Bool
  get_bool (boolean b) = some b
  get_bool _ = none

  unfoldable pub get_long : JsonValue Double → Option ℤ
  get_long (long i) = some i
  get_long _ = none

  unfoldable pub get_double : JsonValue Double → Option Double
  get_double (double d) = some d
  get_double _ = none

  unfoldable pub get_string : JsonValue Double → Option (List ℕ)
  get_string (string s) = some s
  get_string _ = none

  unfoldable pub get_array : JsonValue Double → Option (JsonArray Double)
  get_array (array arr) = some arr
  get_array _ = none

  unfoldable pub get_object : JsonValue Double → Option (JsonObject Double)
  get_object (object obj) = some obj
  get_object _ = none
