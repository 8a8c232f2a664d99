-- ===== src/Jstypes.antt =====
-- jstypes/jsvalue.go: values of the program as values that a page can hold.
--
-- A value is what the package reflect shows of it. Numbers of a named type are values of their own,
-- since the conversion keeps their type; of every other named type it makes the type of its kind, so
-- there a value stands for both. Floats are of a type `F`. A map has strings for keys. An iterator is
-- the list of what it yields.
pub mod Friendly
mod Tests
use zugoui.Prelude.{Text, text_eq, Bool, true, false, Option, none, some, if◌then◌else◌}
use zugoui.Prelude.Int.{ℤ}

mutual
  -- `absent` is the invalid reflect.Value; `ref` a pointer or an interface that is not nil, and
  -- `seq2` has the pairs before its first key that is no string, and whether there is such a key
  pub data Value (F : Type 0) : Type 0 where
    absent : Value F
    nil_ref : Value F
    ref : Value F → Value F
    string : Text → Value F
    bool : Bool → Value F
    integer : ℤ → Value F
    float : F → Value F
    named_integer : ℤ → Value F
    named_float : F → Value F
    nil_map : Value F
    mapping : Entries F → Value F
    nil_slice : Value F
    slice : Values F → Value F
    array : Values F → Value F
    struct : Fields F → Value F
    seq : Values F → Value F
    seq2 : Entries F → Bool → Value F
    other : Value F

  pub data Values (F : Type 0) : Type 0 where
    no_values : Values F
    value : Value F → Values F → Values F

  pub data Entries (F : Type 0) : Type 0 where
    no_entries : Entries F
    entry : Text → Value F → Entries F → Entries F

  -- each field with its name, and whether it is exported
  pub data Fields (F : Type 0) : Type 0 where
    no_fields : Fields F
    field : Text → Bool → Value F → Fields F → Fields F

module _ {F : Type 0} where
  -- a value as an element of []any or map[string]any
  unfoldable pub to_any : Value F → Value F
  to_any absent = nil_ref
  to_any nil_ref = nil_ref
  to_any (ref v) = ref v
  to_any v = ref v

  -- SetMapIndex
  unfoldable pub set_entry : Text → Value F → Entries F → Entries F
  set_entry k v no_entries = entry k v no_entries
  set_entry k v (entry j w es) = if text_eq j k then entry k v es else entry j w (set_entry k v es)

  -- makeIterSlice
  unfoldable pub iter_slice : Values F → Values F
  unfolding to_any
  iter_slice no_values = no_values
  iter_slice (value v vs) = value (to_any v) (iter_slice vs)

  -- the pairs that makeIterMap has left, on the map that it has made
  unfoldable pub iter_map : Entries F → Entries F → Entries F
  unfolding to_any set_entry
  iter_map no_entries out = out
  iter_map (entry k v es) out = iter_map es (set_entry k (to_any v) out)

  -- an element that is kept, or passed over where it is inconvertible
  unfoldable pub keep_value : Option (Value F) → Values F → Values F
  unfolding to_any
  keep_value none vs = vs
  keep_value (some v) vs = value (to_any v) vs

  unfoldable pub keep_entry : Text → Option (Value F) → Entries F → Entries F
  unfolding to_any
  keep_entry k none es = es
  keep_entry k (some v) es = entry k (to_any v) es

unfoldable mutual
  unfolding keep_value keep_entry iter_slice iter_map

  pub value_of : {F : Type 0} → Value F → Option (Value F)
  value_of absent = some absent
  value_of nil_ref = some absent
  value_of (ref v) = value_of v
  value_of (string t) = some (string t)
  value_of (bool b) = some (bool b)
  value_of (integer n) = some (integer n)
  value_of (float x) = some (float x)
  value_of (named_integer n) = some (named_integer n)
  value_of (named_float x) = some (named_float x)
  value_of nil_map = some absent
  value_of (mapping es) = some (mapping (make_map es))
  value_of nil_slice = some absent
  value_of (slice vs) = some (slice (make_array vs))
  value_of (array vs) = some (slice (make_array vs))
  value_of (struct fs) = some (mapping (make_object fs))
  value_of (seq vs) = some (slice (iter_slice vs))
  value_of (seq2 es mixed) = if mixed then none else some (mapping (iter_map es no_entries))
  value_of other = none

  pub make_array : {F : Type 0} → Values F → Values F
  make_array no_values = no_values
  make_array (value v vs) = keep_value (value_of v) (make_array vs)

  pub make_map : {F : Type 0} → Entries F → Entries F
  make_map no_entries = no_entries
  make_map (entry k v es) = keep_entry k (value_of v) (make_map es)

  pub make_object : {F : Type 0} → Fields F → Entries F
  make_object no_fields = no_entries
  make_object (field name true v fs) = keep_entry name (value_of v) (make_object fs)
  make_object (field name false v fs) = make_object fs

-- What ValueOf is given: an encoding.TextMarshaler, with what MarshalText returns, or another value.
pub data Argument (F : Type 0) : Type 0 where
  text_marshaler : Option Text → Argument F
  plain : Value F → Argument F

module _ {F : Type 0} where
  only_present : Option (Value F) → Option (Value F)
  only_present none = none
  only_present (some absent) = none
  only_present (some v) = some v

  marshaled : Option Text → Option (Value F)
  marshaled none = none
  marshaled (some t) = some (string t)

  -- ValueOf
  unfoldable pub js_value_of : Argument F → Option (Value F)
  unfolding only_present marshaled value_of
  js_value_of (text_marshaler t) = marshaled t
  js_value_of (plain v) = only_present (value_of v)
