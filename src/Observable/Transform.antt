-- ===== src/Observable/Transform.antt =====
-- observable/transform.go: the transformers of a binding, by name.
--
-- A value of type `any` is what reflect shows of it, as in Jstypes, with `absent` for nil. Here
-- `other` and iterators stand for functions and channels that are not nil. `zero_float` is the test
-- of reflect for a zero float.
pub mod Measures
mod Tests
use zugoui.Prelude.{
  ℕ, zero, suc, ◌==◌, Text, codes, List, [], ◌∷◌, length, Assoc, lookup, insert, Bool, true, false,
  not, ◌&&◌, Option, none, some, if◌then◌else◌,
}
use zugoui.Prelude.Int.{ℤ, pos, negsuc}
use zugoui.Jstypes.{
  Value, Values, Entries, Fields, absent, nil_ref, ref, string, bool, integer, float, named_integer,
  named_float, nil_map, mapping, nil_slice, slice, array, struct, seq, seq2, other, no_values,
  value, no_entries, entry, no_fields, field,
}

-- BaseTransform; `none` for a nil function
pub record BaseTransform (F : Type 0) : Type 0 where
  pub value_from : Option (Value F → Value F)
  pub value_to : Option (Value F → Value F)

call_or_nil : {F : Type 0} → Option (Value F → Value F) → Value F → Value F
call_or_nil none v = absent
call_or_nil (some f) v = f v

is_some : {A : Type 0} → Option A → Bool
is_some none = false
is_some (some a) = true

module _ {F : Type 0} where
  unfoldable pub get : BaseTransform F → Value F → Value F
  unfolding call_or_nil
  get b v = call_or_nil b.value_from v

  unfoldable pub set_back : BaseTransform F → Value F → Value F
  unfolding call_or_nil
  set_back b v = call_or_nil b.value_to v

  unfoldable pub mutable : BaseTransform F → Bool
  unfolding is_some
  mutable b = is_some b.value_to

  unfoldable pub is_nil : Value F → Bool
  is_nil absent = true
  is_nil nil_ref = true
  is_nil nil_map = true
  is_nil nil_slice = true
  is_nil _ = false

  unfoldable pub count_values : Values F → ℕ
  count_values no_values = 0
  count_values (value v vs) = suc (count_values vs)

  unfoldable pub count_entries : Entries F → ℕ
  count_entries no_entries = 0
  count_entries (entry k v es) = suc (count_entries es)

no_bytes : Text → Bool
no_bytes [] = true
no_bytes (b ∷ t) = false

is_zero_int : ℤ → Bool
is_zero_int (pos n) = n == 0
is_zero_int (negsuc n) = false

unfoldable mutual
  unfolding no_bytes is_zero_int

  -- reflect's IsZero
  pub value_is_zero : {F : Type 0} → (F → Bool) → Value F → Bool
  value_is_zero zero_float absent = true
  value_is_zero zero_float nil_ref = true
  value_is_zero zero_float (ref v) = false
  value_is_zero zero_float (string t) = no_bytes t
  value_is_zero zero_float (bool b) = not b
  value_is_zero zero_float (integer n) = is_zero_int n
  value_is_zero zero_float (float x) = zero_float x
  value_is_zero zero_float (named_integer n) = is_zero_int n
  value_is_zero zero_float (named_float x) = zero_float x
  value_is_zero zero_float nil_map = true
  value_is_zero zero_float (mapping es) = false
  value_is_zero zero_float nil_slice = true
  value_is_zero zero_float (slice vs) = false
  value_is_zero zero_float (array vs) = values_are_zero zero_float vs
  value_is_zero zero_float (struct fs) = fields_are_zero zero_float fs
  value_is_zero zero_float (seq vs) = false
  value_is_zero zero_float (seq2 es mixed) = false
  value_is_zero zero_float other = false

  pub values_are_zero : {F : Type 0} → (F → Bool) → Values F → Bool
  values_are_zero zero_float no_values = true
  values_are_zero zero_float (value v vs) =
      value_is_zero zero_float v && values_are_zero zero_float vs

  pub fields_are_zero : {F : Type 0} → (F → Bool) → Fields F → Bool
  fields_are_zero zero_float no_fields = true
  fields_are_zero zero_float (field name exported v fs) =
      value_is_zero zero_float v && fields_are_zero zero_float fs

module _ {F : Type 0} (zero_float : F → Bool) where
  -- the valueFrom of isZero, with its loop over pointers
  unfoldable pub is_zero : Value F → Bool
  unfolding value_is_zero
  is_zero (ref v) = is_zero v
  is_zero v = value_is_zero zero_float v

  -- v.Len() of the kinds that the source asks it of, and 0
  unfoldable pub len_by_kind : Value F → ℕ
  unfolding count_values count_entries
  len_by_kind (mapping es) = count_entries es
  len_by_kind (slice vs) = count_values vs
  len_by_kind (array vs) = count_values vs
  len_by_kind (string t) = length t
  len_by_kind v = 0

  -- the valueFrom of len
  unfoldable pub len_of : Value F → ℕ
  unfolding value_is_zero len_by_kind
  len_of (ref v) = len_of v
  len_of v = if value_is_zero zero_float v then 0 else len_by_kind v

  one_way_to : (Value F → Value F) → BaseTransform F
  one_way_to f = record { value_from = some f; value_to = none }

  -- what init registers
  unfoldable pub transformers : Assoc (BaseTransform F)
  unfolding one_way_to is_nil is_zero len_of
  transformers = insert (codes "oneWay") (one_way_to (λ v. v)) (
      insert (codes "len") (one_way_to (λ v. integer (pos (len_of v)))) (
        insert (codes "isZero") (one_way_to (λ v. bool (is_zero v)))
          (insert (codes "isNil") (one_way_to (λ v. bool (is_nil v))) [])))

  unfoldable pub new_transformer : Text → Option (BaseTransform F)
  unfolding transformers
  new_transformer name = lookup name transformers
