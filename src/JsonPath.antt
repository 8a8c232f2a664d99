-- ===== src/JsonPath.antt =====
-- jsonpath/jsonpath.go: from the JSON paths of a page to the key paths of a model, and back.
--
-- A type of the program is a node of a table, `shape`, so recursive types are covered; a reference
-- is a node that is no pointer behind a number of pointers (`type P *P`, on which the source loops
-- for ever, has no reference). The package reflect gives the table, and `promoted` is its search of
-- embedded structs for a name that no field of the struct itself has.
pub mod RoundTrip
mod Tests
use zugoui.Prelude.{
  ℕ, zero, suc, Text, codes, text_eq, List, [], ◌∷◌, ◌++◌, Bool, true, false, Option, none, some,
  if◌then◌else◌, ◌==◌,
}
use zugoui.Prelude.Dotted.{split, join}
use zugoui.Prelude.Decimal.{atoi}

pub record Ref (B : Type 0) : Type 0 where
  pub stars : ℕ
  pub base : B

-- reflect.StructField, with the value of its tag for the key "json"
pub record StructField (B : Type 0) : Type 0 where
  pub name : Text
  pub json_tag : Text
  pub exported : Bool
  pub type : Ref B

-- The kinds that the package tells apart.
pub data Shape (B : Type 0) : Type 0 where
  struct : List (StructField B) → Shape B
  slice : Ref B → Shape B
  array : Ref B → Shape B
  mapping : Ref B → Shape B
  other : Shape B

-- Each error wraps ErrNoField.
pub data PathError : Type 0 where
  no_type : PathError
  no_field : Text → PathError
  not_index : Text → PathError

pub data Result {ℓ} (A : Type ℓ) : Type ℓ where
  ok : A → Result A
  err : PathError → Result A

infixl 5 ◌>>=◌
abbrev pub ◌>>=◌ {ℓ κ} : {A : Type ℓ} {B : Type κ} → Result A → (A → Result B) → Result B
ok a >>= f = f a
err e >>= f = err e

-- tag, _, _ := strings.Cut(s, ",")
before_comma : Text → Text
before_comma [] = []
before_comma (c ∷ s) = let rest = before_comma s in if c == b',' then [] else c ∷ rest

encoded : Text → Text → Option Text
encoded name tag =
    if text_eq tag (codes "-") then none else if text_eq tag [] then some name else some tag

unfoldable pub is_named : Text → Option Text → Bool
is_named segment none = false
is_named segment (some name) = text_eq name segment

unfoldable pub or_segment : Text → Option Text → Text
or_segment segment none = segment
or_segment segment (some name) = name

module _ {B : Type 0} where
  deref_loop : ℕ → B → Ref B
  deref_loop zero b = record { stars = zero; base = b }
  deref_loop (suc n) b = deref_loop n b

  unfoldable pub deref : Ref B → Ref B
  unfolding deref_loop
  deref t = deref_loop t.stars t.base

  unfoldable pub json_name : StructField B → Option Text
  unfolding encoded before_comma
  json_name f = if f.exported then encoded f.name (before_comma f.json_tag) else none

  -- the loop over the fields of a struct in KeyPath
  unfoldable pub field_by_json : Text → List (StructField B) → Option (StructField B)
  unfolding is_named
  field_by_json segment [] = none
  field_by_json segment (f ∷ fs) =
      if is_named segment (json_name f) then some f else field_by_json segment fs

  -- the part of reflect's FieldByName that looks at the struct's own fields
  unfoldable pub own_field : Text → List (StructField B) → Option (StructField B)
  own_field name [] = none
  own_field name (f ∷ fs) = if text_eq f.name name then some f else own_field name fs

  -- one round of the loop of KeyPath behind `deref`: the key and the type that it reaches
  unfoldable pub enter : Text → Shape B → Result (Text × Ref B)
  enter segment (struct fs) = elim (field_by_json segment fs) [
    | none ↦ err (no_field segment)
    | some f ↦ ok (f.name, f.type)
  ]
  enter segment (slice t) = if (atoi segment).1 then ok (segment, t) else err (not_index segment)
  enter segment (array t) = if (atoi segment).1 then ok (segment, t) else err (not_index segment)
  enter segment (mapping t) = ok (segment, t)
  enter segment other = err (no_field segment)

module _ {B : Type 0} (shape : B → Shape B) where
  unfoldable pub key_loop : List Text → Ref B → List Text → Result (List Text × Ref B)
  unfolding enter deref
  key_loop [] t keys = ok (keys, t)
  key_loop (segment ∷ rest) t keys = do
    (key, t') ← enter segment (shape (deref t).base)
    key_loop rest t' (keys ++ key ∷ [])

  -- `none` is a nil reflect.Type
  unfoldable pub key_path : Option (Ref B) → Text → Result (Text × Ref B)
  unfolding key_loop
  key_path none path = err no_type
  key_path (some t) path = do (keys, t') ← key_loop (split path) t []; ok (join keys, t')

module _ {B : Type 0} (promoted : List (StructField B) → Text → Option (StructField B)) where
  unfoldable pub field_by_name : Text → List (StructField B) → Option (StructField B)
  field_by_name name fs = elim (own_field name fs) [ none ↦ promoted fs name | some f ↦ some f ]

  -- one round of the loop of FromKeyPath behind `deref`; `none` leaves the loop
  unfoldable pub leave : Text → Shape B → Option (Text × Ref B)
  unfolding field_by_name or_segment
  leave segment (struct fs) = elim (field_by_name segment fs) [
    | none ↦ none
    | some f ↦ some (or_segment segment (json_name f), f.type)
  ]
  leave segment (slice t) = some (segment, t)
  leave segment (array t) = some (segment, t)
  leave segment (mapping t) = some (segment, t)
  leave segment other = none

module _ {B : Type 0} (shape : B → Shape B)
    (promoted : List (StructField B) → Text → Option (StructField B)) where
  unfoldable pub name_loop : List Text → Ref B → List Text
  unfolding leave deref
  name_loop [] t = []
  name_loop (segment ∷ rest) t = elim (leave promoted segment (shape (deref t).base)) [
    | none ↦ segment ∷ rest
    | some (name, t') ↦ name ∷ name_loop rest t'
  ]

  unfoldable pub from_key_path : Option (Ref B) → Text → Text
  unfolding name_loop
  from_key_path none path = join (split path)
  from_key_path (some t) path = join (name_loop (split path) t)
