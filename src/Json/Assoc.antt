-- ===== src/Json/Assoc.antt =====
-- Objects as functions of the key. The text of an object is a fixed one, and every text is parsed to
-- the same object.
use Prim.Native.String.{String}
use text.Mathlib.Text.{◌==◌ as str_eq}
use xfrpc.Prelude.{ℕ, refl, if◌then◌else◌, Option, none, some, List, ℤ, pos}
use xfrpc.Json.{JValue, JsonC}

abbrev pub Members : Type 0
Members = String → Option JValue

abbrev pub int_of : JValue → ℤ
int_of (JValue.int n) = n
int_of _ = pos 0

-- A text is read as `answer`, null excepted.
abbrev pub reading : Option String → JValue → Option String
reading answer JValue.null = none
reading answer v = answer

abbrev pub assoc : List ℕ → Option Members → Option String → JsonC
assoc text parsed answer = record {
  Obj = Members;
  new_object = λ k. none;
  object_add = λ o k v j. if str_eq k j then some v else o j;
  object_get = λ o k. o k;
  to_json_string = λ o. text;
  tokener_parse = λ s. parsed;
  get_string = reading answer;
  get_int = int_of;
  get-new = λ k. refl;
  get-add = λ o k j v. refl;
  get_string-null = refl;
}
