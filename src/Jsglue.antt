-- ===== src/Jsglue.antt =====
-- jsglue/types.go: setting a Go value to a value of the page.
--
-- What package js does with a value of the page is a record, `Js`. The types are finite trees: a
-- struct that holds pointers to itself is taken to the depth that the values have. A setting of a
-- value is a function from the old value, and returns the new one and what SetValue returns.
-- Package reflect's conversions between integers are written out; floats are of
-- one type.
pub mod Setting
pub mod Stands
pub mod Stood
mod Tests
use zugoui.Prelude.{
  ℕ, zero, suc, ◌+◌, ◌-◌, ◌*◌, ◌%◌, Text, text_eq, List, [], ◌∷◌, Assoc, insert, Bool, true, false,
  ◌||◌, ◌&&◌, Option, none, some, ltb, if◌then◌else◌,
}
use zugoui.Prelude.Int.{ℤ, pos, negsuc}

pub data JsType : Type 0 where
  undefined : JsType
  null : JsType
  boolean : JsType
  number : JsType
  string : JsType
  symbol : JsType
  object : JsType
  function : JsType

pub data Width : Type 0 where
  w8 : Width
  w16 : Width
  w32 : Width
  w64 : Width

-- 2 ^ (w - 1)
abbrev pub half : Width → ℕ
half w8 = 128
half w16 = 32768
half w32 = 2147483648
half w64 = 9223372036854775808

-- The kinds of a reflect.Type; `unmarshaler` is a type that implements encoding.TextUnmarshaler, by
-- a number, and `other` stands for interfaces, functions and the like.
mutual
  pub data GoType : Type 0 where
    text_type : GoType
    bool_type : GoType
    int_type : Width → GoType
    uint_type : Width → GoType
    float_type : GoType
    slice_of : GoType → GoType
    array_of : ℕ → GoType → GoType
    map_of : Bool → GoType → GoType
    struct_of : Fields → GoType
    pointer_to : GoType → GoType
    unmarshaler : ℕ → GoType → GoType
    other : GoType

  pub data Fields : Type 0 where
    no_fields : Fields
    field : Text → Bool → GoType → Fields → Fields

mutual
  pub data Value (F : Type 0) : Type 0 where
    text : Text → Value F
    bool : Bool → Value F
    int : ℤ → Value F
    uint : ℕ → Value F
    float : F → Value F
    slice : Values F → Value F
    array : Values F → Value F
    mapping : Entries F → Value F
    struct : Values F → Value F
    pointer : Value F → Value F
    nil : Value F

  pub data Values (F : Type 0) : Type 0 where
    no_values : Values F
    also : Value F → Values F → Values F

  pub data Entries (F : Type 0) : Type 0 where
    no_entries : Entries F
    entry : Text → Value F → Entries F → Entries F

-- js.Value and its methods, strconv's parsers, the iterator of a value and the function
-- Object.entries of the page, for values `J` and floats `F`; and the
-- UnmarshalText methods of the program.
pub record Js (J F : Type 0) : Type 0 where
  pub type_of : J → JsType
  pub string_of : J → Text
  pub truthy : J → Bool
  pub int_of : J → ℤ
  pub float_of : J → F
  pub get : Text → J → J
  pub iterate : J → List J
  pub entries : J → List (Text × J)
  pub parse_int : Text → Option ℤ
  pub parse_uint : Text → Option ℕ
  pub parse_float : Text → Option F
  pub zero_float : F
  pub unmarshal : ℕ → GoType → Text → Option (Value F)

-- reflect's conversion of an int to an unsigned type, and to a signed one
unfoldable pub to_uint : Width → ℤ → ℕ
to_uint w (pos n) = n % (2 * half w)
to_uint w (negsuc n) = 2 * half w - 1 - n % (2 * half w)

unfoldable pub to_int : Width → ℤ → ℤ
unfolding to_uint
to_int w i =
    if ltb (to_uint w i) (half w) then pos (to_uint w i) else negsuc (2 * half w - 1 - to_uint w i)

module _ {F : Type 0} where
  unfoldable pub repeated : ℕ → Value F → Values F
  repeated zero v = no_values
  repeated (suc n) v = also v (repeated n v)

  -- SetMapIndex
  unfoldable pub put_entry : Text → Value F → Entries F → Entries F
  put_entry k v no_entries = entry k v no_entries
  put_entry k v (entry j w m) = if text_eq j k then entry k v m else entry j w (put_entry k v m)

  unfoldable pub entries_in : Value F → Entries F
  entries_in (mapping m) = m
  entries_in _ = no_entries

  unfoldable pub values_in : Value F → Values F
  values_in (slice vs) = vs
  values_in (array vs) = vs
  values_in (struct vs) = vs
  values_in _ = no_values

-- SetZero
unfoldable mutual
  unfolding repeated

  pub zero_of : {F : Type 0} → F → GoType → Value F
  zero_of z text_type = text []
  zero_of z bool_type = bool false
  zero_of z (int_type w) = int (pos 0)
  zero_of z (uint_type w) = uint 0
  zero_of z float_type = float z
  zero_of z (slice_of t) = nil
  zero_of z (array_of n t) = array (repeated n (zero_of z t))
  zero_of z (map_of k t) = nil
  zero_of z (struct_of fs) = struct (zeros_of z fs)
  zero_of z (pointer_to t) = nil
  zero_of z (unmarshaler u t) = zero_of z t
  zero_of z other = nil

  pub zeros_of : {F : Type 0} → F → Fields → Values F
  zeros_of z no_fields = no_values
  zeros_of z (field name exported t fs) = also (zero_of z t) (zeros_of z fs)
