-- ===== src/Observable/Transform/Tests.antt =====
-- observable/transform.go: tests, and the theorems at concrete inputs.
use zugoui.Prelude.{
  ℕ, [], ◌∷◌, codes, Bool, true, false, some, none, if◌then◌else◌, ◌==◌, ◌≡◌, refl,
}
use zugoui.Prelude.Int.{pos}
use zugoui.Jstypes.{Value, ref, integer, array, slice, value, no_values}
use zugoui.Observable.Transform.{BaseTransform, len_of, new_transformer}
use zugoui.Observable.Transform.Measures.{counts_ref, counts_slice, len_of-Counts}

abbrev is_plus_zero : ℕ → Bool
is_plus_zero bits = bits == 0

-- a pointer to an array of two zeros, and a slice of two zeros
abbrev blank : Value ℕ
blank = ref (array (value (integer (pos 0)) (value (integer (pos 0)) no_values)))

abbrev zeros : Value ℕ
zeros = slice (value (integer (pos 0)) (value (integer (pos 0)) no_values))

blank-len : len_of is_plus_zero blank ≡ 0
unfolding len_of
blank-len = refl

zeros-len : len_of is_plus_zero zeros ≡ 2
unfolding len_of
zeros-len = refl

len_of-Counts_example : len_of is_plus_zero (ref zeros) ≡ 2
len_of-Counts_example =
    len_of-Counts is_plus_zero (ref zeros) 2
      (counts_ref (counts_slice (integer (pos 0) ∷ integer (pos 0) ∷ [])))

abbrev one_way : BaseTransform ℕ
one_way = record { value_from = some (λ v. v); value_to = none }

one_way-found : new_transformer is_plus_zero (codes "oneWay") ≡ some one_way
unfolding new_transformer zugoui.Prelude.lookup zugoui.Prelude.insert zugoui.Prelude.text_eq
one_way-found = refl
