-- ===== src/Jsglue/Tests.antt =====
-- jsglue/types.go: tests, and the theorem at a concrete input.
use zugoui.Prelude.{ℕ, Text, codes, List, [], ◌∷◌, true, false, none, ◌≡◌, refl, arith}
use zugoui.Prelude.Int.{ℤ, pos}
use zugoui.Jsglue.{
  Js, JsType, number, string, object, w8, GoType, int_type, array_of, Value, int, array, no_values,
  also,
}
use zugoui.Jsglue.Setting.{set_value}
use zugoui.Jsglue.Stands.{Stands, stands_array, stands_int, each_more, each_end}
use zugoui.Jsglue.Stood.{set_value-Stands}

-- numbers, texts and arrays of two values
data Given : Type 0 where
  number_of : ℤ → Given
  text_of : Text → Given
  pair : Given → Given → Given

abbrev kind_of : Given → JsType
kind_of (number_of i) = number
kind_of (text_of s) = string
kind_of (pair a b) = object

abbrev shown : Given → Text
shown (text_of s) = s
shown _ = codes "<object>"

abbrev whole : Given → ℤ
whole (number_of i) = i
whole _ = pos 0

abbrev elements : Given → List Given
elements (pair a b) = a ∷ b ∷ []
elements _ = []

abbrev page : Js Given ℕ
page = record {
  type_of = kind_of;
  string_of = shown;
  truthy = λ j. true;
  int_of = whole;
  float_of = λ j. 0;
  get = λ name j. j;
  iterate = elements;
  entries = λ j. [];
  parse_int = λ s. none;
  parse_uint = λ s. none;
  parse_float = λ s. none;
  zero_float = 0;
  unmarshal = λ u t s. none;
}

abbrev three : GoType
three = array_of 3 (int_type w8)

abbrev zeros : Value ℕ
zeros = array (also (int (pos 0)) (also (int (pos 0)) (also (int (pos 0)) no_values)))

-- 300 does not fit an int8, and is set as 44
narrowed :
    set_value page three (pair (number_of (pos 300)) (text_of (codes "7"))) zeros
    ≡ (array (also (int (pos 44)) (also (int (pos 0)) (also (int (pos 0)) no_values))), true)
unfolding set_value
narrowed = refl

-- an array of one element takes the first of two, and SetValue returns false
too_many :
    set_value page
      (array_of 1 (int_type w8))
      (pair (number_of (pos 5)) (number_of (pos 6)))
      (array (also (int (pos 0)) no_values))
    ≡ (array (also (int (pos 5)) no_values), false)
unfolding set_value
too_many = refl

abbrev five_six : Given
five_six = pair (number_of (pos 5)) (number_of (pos 6))

-- two numbers, for the first two of three elements
abbrev five_six_zero : Value ℕ
five_six_zero = array (also (int (pos 5)) (also (int (pos 6)) (also (int (pos 0)) no_values)))

five_six-Stands : Stands page three five_six zeros five_six_zero
five_six-Stands = stands_array five_six 3 (int_type w8) _ _ refl (
    each_more (int_type w8) _ _ _ _ _ _ (stands_int _ _ w8 refl (omega arith)) (
      each_more (int_type w8) _ _ _ _ _ _ (stands_int _ _ w8 refl (omega arith))
        (each_end (int_type w8) _)))

set_value-Stands_example : set_value page three five_six zeros ≡ (five_six_zero, true)
set_value-Stands_example = set_value-Stands page three five_six zeros five_six_zero five_six-Stands
