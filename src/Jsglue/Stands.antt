-- ===== src/Jsglue/Stands.antt =====
-- jsglue/types.go: what the values of a page stand for, beside SetValue.
use zugoui.Prelude.{ℕ, ◌<◌, ◌*◌, Text, List, [], ◌∷◌, true, false, some, ◌≡◌}
use zugoui.Prelude.Int.{ℤ, pos, negsuc}
use zugoui.Jsglue.{
  undefined, boolean, number, string, object, Js, Width, half, GoType, text_type, bool_type,
  int_type, uint_type, float_type, slice_of, array_of, map_of, struct_of, pointer_to, Fields,
  no_fields, field, Value, text, bool, int, uint, float, slice, array, mapping, struct, pointer,
  nil, Values, no_values, also, Entries, no_entries, put_entry,
}
use zugoui.Jsglue.Setting

-- An integer is in the range of a signed type.
abbrev pub Fits : Width → ℤ → Type 0
Fits w (pos n) = n < half w
Fits w (negsuc n) = n < half w

module _ {J F : Type 0} (js : Js J F) where
  open js use {type_of, string_of, truthy, int_of, float_of, get, iterate, entries, parse_int}
  open js use {parse_uint, parse_float, zero_float}

  abbrev pub zero : GoType → Value F
  zero t = Setting.zero js t

  -- Where a value of a type is, a value of the page stands for the last one: numbers and texts of
  -- numbers, that are in the range of the type, for this number, objects for as many elements or
  -- for the exported fields of their names, and so on. A field that the page does not have is zero,
  -- and what a struct or an array has beyond the values of the page stays.
  mutual
    pub data Stands : GoType → J → Value F → Value F → Type 0 where
      stands_text :
          (j : J) (v : Value F) → type_of j ≡ string → Stands text_type j v (text (string_of j))
      stands_bool :
          (j : J) (v : Value F) → type_of j ≡ boolean → Stands bool_type j v (bool (truthy j))
      stands_int :
          (j : J) (v : Value F) (w : Width)
          → type_of j ≡ number
          → Fits w (int_of j)
          → Stands (int_type w) j v (int (int_of j))
      stands_int_text :
          (j : J) (v : Value F) (w : Width) (i : ℤ)
          → type_of j ≡ string
          → parse_int (string_of j) ≡ some i
          → Fits w i
          → Stands (int_type w) j v (int i)
      stands_uint :
          (j : J) (v : Value F) (w : Width) (n : ℕ)
          → type_of j ≡ number
          → int_of j ≡ pos n
          → n < 2 * half w
          → Stands (uint_type w) j v (uint n)
      stands_uint_text :
          (j : J) (v : Value F) (w : Width) (n : ℕ)
          → type_of j ≡ string
          → parse_uint (string_of j) ≡ some n
          → n < 2 * half w
          → Stands (uint_type w) j v (uint n)
      stands_float :
          (j : J) (v : Value F) → type_of j ≡ number → Stands float_type j v (float (float_of j))
      stands_slice :
          (j : J) (v : Value F) (t : GoType) (w : Value F) (ws : Values F)
          → type_of j ≡ object
          → StandAll t (iterate j) (also w ws)
          → Stands (slice_of t) j v (slice (also w ws))
      stands_array :
          (j : J) (n : ℕ) (t : GoType) (vs ws : Values F)
          → type_of j ≡ object
          → StandEach t (iterate j) vs ws
          → Stands (array_of n t) j (array vs) (array ws)
      stands_map :
          (j : J) (t : GoType) (m m' : Entries F)
          → type_of j ≡ object
          → StandFor t (entries j) m m'
          → Stands (map_of true t) j (mapping m) (mapping m')
      stands_new_map :
          (j : J) (t : GoType) (m : Entries F)
          → type_of j ≡ object
          → StandFor t (entries j) no_entries m
          → Stands (map_of true t) j nil (mapping m)
      stands_struct :
          (j : J) (fs : Fields) (vs ws : Values F)
          → type_of j ≡ object
          → StandIn fs j vs ws
          → Stands (struct_of fs) j (struct vs) (struct ws)
      stands_pointer :
          (j : J) (t : GoType) (v w : Value F)
          → Stands t j v w
          → Stands (pointer_to t) j (pointer v) (pointer w)
      stands_new :
          (j : J) (t : GoType) (w : Value F)
          → Stands t j (zero t) w
          → Stands (pointer_to t) j nil (pointer w)

    -- the elements of a slice
    pub data StandAll : GoType → List J → Values F → Type 0 where
      all_end : (t : GoType) → StandAll t [] no_values
      all_more :
          (t : GoType) (j : J) (js' : List J) (w : Value F) (ws : Values F)
          → Stands t j (zero t) w
          → StandAll t js' ws
          → StandAll t (j ∷ js') (also w ws)

    -- the first elements of an array
    pub data StandEach : GoType → List J → Values F → Values F → Type 0 where
      each_end : (t : GoType) (vs : Values F) → StandEach t [] vs vs
      each_more :
          (t : GoType) (j : J) (js' : List J) (v w : Value F) (vs ws : Values F)
          → Stands t j v w
          → StandEach t js' vs ws
          → StandEach t (j ∷ js') (also v vs) (also w ws)

    -- the entries that are put into a map
    pub data StandFor : GoType → List (Text × J) → Entries F → Entries F → Type 0 where
      for_end : (t : GoType) (m : Entries F) → StandFor t [] m m
      for_more :
          (t : GoType) (k : Text) (j : J) (es : List (Text × J)) (w : Value F) (m m' : Entries F)
          → Stands t j (zero t) w
          → StandFor t es (put_entry k w m) m'
          → StandFor t ((k, j) ∷ es) m m'

    -- the fields of a struct
    pub data StandIn : Fields → J → Values F → Values F → Type 0 where
      in_end : (j : J) → StandIn no_fields j no_values no_values
      in_field :
          (name : Text) (t : GoType) (fs : Fields) (j : J) (v w : Value F) (vs ws : Values F)
          → Stands t (get name j) v w
          → StandIn fs j vs ws
          → StandIn (field name true t fs) j (also v vs) (also w ws)
      in_missing :
          (name : Text) (t : GoType) (fs : Fields) (j : J) (v : Value F) (vs ws : Values F)
          → type_of (get name j) ≡ undefined
          → StandIn fs j vs ws
          → StandIn (field name true t fs) j (also v vs) (also (zero t) ws)
      in_hidden :
          (name : Text) (t : GoType) (fs : Fields) (j : J) (v : Value F) (vs ws : Values F)
          → StandIn fs j vs ws
          → StandIn (field name false t fs) j (also v vs) (also v ws)
