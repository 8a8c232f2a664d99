-- ===== src/Jsglue/Setting.antt =====
-- jsglue/types.go: SetValue, setStruct, setMap, setSlice, setArray and setScaler.
-- UnmarshalText is taken to return: on a nil pointer it may panic.
use zugoui.Prelude.{
  ◌*◌, ◌%◌, Text, List, [], ◌∷◌, Bool, true, false, Option, none, some, if◌then◌else◌,
}
use zugoui.Jsglue.{
  JsType, undefined, null, number, string, object, Js, Width, half, GoType, text_type, bool_type,
  int_type, uint_type, float_type, slice_of, array_of, map_of, struct_of, pointer_to, unmarshaler,
  other, Fields, no_fields, field, Value, text, bool, int, uint, float, slice, array, mapping,
  struct, pointer, nil, Values, no_values, also, Entries, to_uint, to_int, put_entry, entries_in,
  values_in, zero_of,
}

unfoldable pub is_nullish : JsType → Bool
is_nullish undefined = true
is_nullish null = true
is_nullish _ = false

unfoldable pub is_number : JsType → Bool
is_number number = true
is_number _ = false

unfoldable pub is_string : JsType → Bool
is_string string = true
is_string _ = false

unfoldable pub is_object : JsType → Bool
is_object object = true
is_object _ = false

module _ {F : Type 0} where
  -- a value that is set, or stays as it was where the parser failed
  unfoldable pub or_failed : {A : Type 0} → (A → Value F) → Option A → Value F → Value F × Bool
  or_failed make none v = (v, false)
  or_failed make (some a) v = (make a, true)

  unfoldable pub slice_from : Value F → Values F → Value F
  slice_from nil no_values = nil
  slice_from v vs = slice vs

  -- v, or its zero where SetValue returned false
  unfoldable pub or_zero : Value F → Value F × Bool → Value F
  or_zero z (v, ok) = if ok then v else z

  -- the first tests of SetValue: what was unmarshaled, the zero for null or undefined, or what is
  -- set behind them
  unfoldable pub or_set : Option (Value F) → Bool → Value F → Value F × Bool → Value F × Bool
  or_set (some v) nullish z r = (v, true)
  or_set none nullish z r = if nullish then (z, true) else r

  -- SetMapIndex of a value that could be set
  unfoldable pub set_entry : Text → Value F × Bool → Entries F → Entries F
  unfolding put_entry
  set_entry k (v, ok) m = if ok then put_entry k v m else m

module _ {J F : Type 0} where
  -- the elements that setSlice appends to a slice of the length 0
  unfoldable pub set_slice : (J → Value F) → List J → Values F
  set_slice f [] = no_values
  set_slice f (e ∷ es) = also (f e) (set_slice f es)

  -- the loop of setArray
  unfoldable pub set_array :
      (J → Value F → Value F × Bool) → Value F → List J → Values F → Values F × Bool
  unfolding or_zero
  set_array f z [] vs = (vs, true)
  set_array f z (e ∷ es) no_values = (no_values, false)
  set_array f z (e ∷ es) (also v vs) =
      let (vs', ok) = set_array f z es vs in (also (or_zero z (f e v)) vs', ok)

  -- the loop of setMap, for keys that texts convert to
  unfoldable pub set_map : (J → Value F × Bool) → List (Text × J) → Entries F → Entries F
  unfolding set_entry
  set_map f [] m = m
  set_map f ((k, e) ∷ es) m = set_map f es (set_entry k (f e) m)

module _ {J F : Type 0} (js : Js J F) where
  open js use {type_of, string_of, truthy, int_of, float_of, get, iterate, entries, parse_int}
  open js use {parse_uint, parse_float, zero_float, unmarshal}

  unfoldable pub zero : GoType → Value F
  unfolding zero_of
  zero t = zero_of zero_float t

  unfoldable pub unmarshaled : GoType → J → Option (Value F)
  unfolding is_string
  unmarshaled (unmarshaler u t) j =
      if is_string (type_of j) then unmarshal u t (string_of j) else none
  unmarshaled t j = none

  -- SetValue, with what it does behind MutableValue
  unfoldable pub checked : GoType → (J → Value F → Value F × Bool) → J → Value F → Value F × Bool
  unfolding unmarshaled or_set is_nullish zero
  checked t set j v = or_set (unmarshaled t j) (is_nullish (type_of j)) (zero t) (set j v)

  unfoldable pub if_object : J → Value F × Bool → Value F → Value F × Bool
  unfolding is_object
  if_object j done v = if is_object (type_of j) then done else (v, false)

  unfoldable pub set_int : Width → J → Value F → Value F × Bool
  unfolding or_failed to_int is_number
  set_int w j v =
      if is_number (type_of j)
      then (int (to_int w (int_of j)), true)
      else or_failed (λ i. int (to_int w i)) (parse_int (string_of j)) v

  unfoldable pub set_uint : Width → J → Value F → Value F × Bool
  unfolding or_failed to_uint is_number
  set_uint w j v =
      if is_number (type_of j)
      then (uint (to_uint w (int_of j)), true)
      else or_failed (λ n. uint (n % (2 * half w))) (parse_uint (string_of j)) v

  unfoldable pub set_float : J → Value F → Value F × Bool
  unfolding or_failed is_number
  set_float j v =
      if is_number (type_of j)
      then (float (float_of j), true)
      else or_failed float (parse_float (string_of j)) v

  -- what MutableValue makes of a pointer
  unfoldable pub pointed : GoType → Value F → Value F
  unfolding zero
  pointed t (pointer v) = v
  pointed t _ = zero t

  unfoldable pub pointer_with : Value F × Bool → Value F × Bool
  pointer_with (v, ok) = (pointer v, ok)

  unfoldable pub array_with : Values F × Bool → Value F × Bool
  array_with (vs, ok) = (array vs, ok)

unfoldable mutual
  unfolding checked set_int set_uint set_float set_slice slice_from set_array set_map if_object
      pointed pointer_with array_with or_zero zero entries_in values_in

  -- SetValue behind its first tests
  pub set_kind : {J F : Type 0} → Js J F → GoType → J → Value F → Value F × Bool
  set_kind js text_type j v = (text (js.string_of j), true)
  set_kind js bool_type j v = (bool (js.truthy j), true)
  set_kind js (int_type w) j v = set_int js w j v
  set_kind js (uint_type w) j v = set_uint js w j v
  set_kind js float_type j v = set_float js j v
  set_kind js (slice_of t) j v =
      if_object js j
        (
          slice_from v (
              set_slice (λ e. (checked js t (λ e v. set_kind js t e v) e (zero js t)).0)
                (js.iterate j)),
          true,
        )
        v
  set_kind js (array_of n t) j v =
      if_object js j
        (array_with js (
          set_array (λ e v. checked js t (λ e v. set_kind js t e v) e v) (zero js t) (js.iterate j)
            (values_in v)))
        v
  set_kind js (map_of has_text_keys t) j v =
      if_object js j
        (
          mapping (
              if has_text_keys
              then set_map (λ e. checked js t (λ e v. set_kind js t e v) e (zero js t))
                  (js.entries j) (entries_in v)
              else entries_in v),
          true,
        )
        v
  set_kind js (struct_of fs) j v =
      if_object js j (struct (set_fields js fs j (values_in v)), true) v
  set_kind js (pointer_to t) j v = pointer_with js (set_kind js t j (pointed js t v))
  set_kind js (unmarshaler u t) j v = set_kind js t j v
  set_kind js other j v = (v, false)

  -- setStruct
  pub set_fields : {J F : Type 0} → Js J F → Fields → J → Values F → Values F
  set_fields js no_fields j vs = vs
  set_fields js (field name exported t fs) j no_values = no_values
  set_fields js (field name exported t fs) j (also v vs) =
      let v' = or_zero (zero js t) (checked js t (λ e v. set_kind js t e v) (js.get name j) v) in
      also (if exported then v' else v) (set_fields js fs j vs)

-- SetValue
unfoldable pub set_value : {J F : Type 0} → Js J F → GoType → J → Value F → Value F × Bool
unfolding checked set_kind
set_value js t j v = checked js t (λ j v. set_kind js t j v) j v
