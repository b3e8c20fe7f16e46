-- ===== src/Json.antt =====
-- json-c, as the interface that msg.c uses: values, objects, their text, and what a key of an
-- object holds.
pub mod Assoc
use Prim.Native.String.{String}
use text.Mathlib.Text.{◌==◌ as str_eq}
use xfrpc.Prelude.{ℕ, ◌≡◌, Bool, if◌then◌else◌, Option, none, some, List, ℤ}

-- A `struct json_object *` that is a member: NULL, which stands for null, a text, a number, a truth
-- value, an array of texts, or any other value, by its text.
pub data JValue : Type 0 where
  null : JValue
  str : List ℕ → JValue
  int : ℤ → JValue
  boolean : Bool → JValue
  array : List (List ℕ) → JValue
  other : List ℕ → JValue

-- `get_string` gives NULL for null. `get_int` is what json-c converts a value to.
pub record JsonC : Type 1 where
  pub Obj : Type 0
  pub new_object : Obj
  pub object_add : Obj → String → JValue → Obj
  pub object_get : Obj → String → Option JValue
  pub to_json_string : Obj → List ℕ
  pub tokener_parse : List ℕ → Option Obj
  pub get_string : JValue → Option String
  pub get_int : JValue → ℤ
  pub get-new : (k : String) → object_get new_object k ≡ none
  pub get-add :
      (o : Obj) (k j : String) (v : JValue)
      → object_get (object_add o k v) j ≡ (if str_eq k j then some v else object_get o j)
  pub get_string-null : get_string null ≡ none
