-- ===== src/Jstypes/Friendly.antt =====
-- jstypes/jsvalue.go: what comes out of the conversion, which converts it to itself.
use zugoui.Prelude.{Text, Bool, true, false, Option, none, some, ◌≡◌, refl, ap, subst}
use zugoui.Prelude.Int.{ℤ}
use zugoui.Jstypes.{
  Value, Values, Entries, Fields, absent, nil_ref, ref, string, bool, integer, float, named_integer,
  named_float, nil_map, mapping, nil_slice, slice, array, struct, seq, seq2, other, no_values,
  value, no_entries, entry, no_fields, field, to_any, keep_value, keep_entry, value_of, make_array,
  make_map, make_object,
}

mutual
  -- What js.ValueOf takes: nil, scalars, []any and map[string]any of such values.
  pub data IsJs {F : Type 0} : Value F → Type 0 where
    js_absent : IsJs absent
    js_string : (t : Text) → IsJs (string t)
    js_bool : (b : Bool) → IsJs (bool b)
    js_integer : (n : ℤ) → IsJs (integer n)
    js_float : (x : F) → IsJs (float x)
    js_mapping : {es : Entries F} → AreEntries es → IsJs (mapping es)
    js_slice : {vs : Values F} → AreValues vs → IsJs (slice vs)

  pub data AreValues {F : Type 0} : Values F → Type 0 where
    js_no_values : AreValues no_values
    js_value :
        {v : Value F} {vs : Values F} → IsJs v → AreValues vs → AreValues (value (to_any v) vs)

  pub data AreEntries {F : Type 0} : Entries F → Type 0 where
    js_no_entries : AreEntries no_entries
    js_entry :
        {k : Text} {v : Value F} {es : Entries F}
        → IsJs v
        → AreEntries es
        → AreEntries (entry k (to_any v) es)

abbrev mutual
  -- no iterator and no number of a named type among the values that the conversion reaches
  pub IsOrdinary : {F : Type 0} → Value F → Type 0
  IsOrdinary (ref v) = IsOrdinary v
  IsOrdinary (mapping es) = IsOrdinaryEntries es
  IsOrdinary (slice vs) = IsOrdinaryValues vs
  IsOrdinary (array vs) = IsOrdinaryValues vs
  IsOrdinary (struct fs) = IsOrdinaryFields fs
  IsOrdinary (named_integer n) = ⊥
  IsOrdinary (named_float x) = ⊥
  IsOrdinary (seq vs) = ⊥
  IsOrdinary (seq2 es mixed) = ⊥
  IsOrdinary _ = Unit

  pub IsOrdinaryValues : {F : Type 0} → Values F → Type 0
  IsOrdinaryValues no_values = Unit
  IsOrdinaryValues (value v vs) = IsOrdinary v × IsOrdinaryValues vs

  pub IsOrdinaryEntries : {F : Type 0} → Entries F → Type 0
  IsOrdinaryEntries no_entries = Unit
  IsOrdinaryEntries (entry k v es) = IsOrdinary v × IsOrdinaryEntries es

  pub IsOrdinaryFields : {F : Type 0} → Fields F → Type 0
  IsOrdinaryFields no_fields = Unit
  IsOrdinaryFields (field name exported v fs) = IsOrdinary v × IsOrdinaryFields fs

module _ {F : Type 0} where
  AllJs : Option (Value F) → Type 0
  AllJs none = Unit
  AllJs (some v) = IsJs v

  keep_value-AreValues :
      (r : Option (Value F)) (vs : Values F) → AllJs r → AreValues vs → AreValues (keep_value r vs)
  unfolding AllJs keep_value
  keep_value-AreValues none vs h g = g
  keep_value-AreValues (some v) vs h g = js_value h g

  keep_entry-AreEntries :
      (k : Text) (r : Option (Value F)) (es : Entries F)
      → AllJs r
      → AreEntries es
      → AreEntries (keep_entry k r es)
  unfolding AllJs keep_entry
  keep_entry-AreEntries k none es h g = g
  keep_entry-AreEntries k (some v) es h g = js_entry h g

mutual
  unfolding value_of make_array make_map make_object AllJs

  value_of-AllJs : {F : Type 0} (v : Value F) → IsOrdinary v → AllJs (value_of v)
  value_of-AllJs absent h = js_absent
  value_of-AllJs nil_ref h = js_absent
  value_of-AllJs (ref v) h = value_of-AllJs v h
  value_of-AllJs (string t) h = js_string t
  value_of-AllJs (bool b) h = js_bool b
  value_of-AllJs (integer n) h = js_integer n
  value_of-AllJs (float x) h = js_float x
  value_of-AllJs (named_integer n) h = absurd h
  value_of-AllJs (named_float x) h = absurd h
  value_of-AllJs nil_map h = js_absent
  value_of-AllJs (mapping es) h = js_mapping (make_map-AreEntries es h)
  value_of-AllJs nil_slice h = js_absent
  value_of-AllJs (slice vs) h = js_slice (make_array-AreValues vs h)
  value_of-AllJs (array vs) h = js_slice (make_array-AreValues vs h)
  value_of-AllJs (struct fs) h = js_mapping (make_object-AreEntries fs h)
  value_of-AllJs (seq vs) h = absurd h
  value_of-AllJs (seq2 es mixed) h = absurd h
  value_of-AllJs other h = tt

  make_array-AreValues :
      {F : Type 0} (vs : Values F) → IsOrdinaryValues vs → AreValues (make_array vs)
  make_array-AreValues no_values h = js_no_values
  make_array-AreValues (value v vs) (a, h) =
      keep_value-AreValues (value_of v) (make_array vs) (value_of-AllJs v a)
        (make_array-AreValues vs h)

  make_map-AreEntries :
      {F : Type 0} (es : Entries F) → IsOrdinaryEntries es → AreEntries (make_map es)
  make_map-AreEntries no_entries h = js_no_entries
  make_map-AreEntries (entry k v es) (a, h) =
      keep_entry-AreEntries k (value_of v) (make_map es) (value_of-AllJs v a)
        (make_map-AreEntries es h)

  make_object-AreEntries :
      {F : Type 0} (fs : Fields F) → IsOrdinaryFields fs → AreEntries (make_object fs)
  make_object-AreEntries no_fields h = js_no_entries
  make_object-AreEntries (field name true v fs) (a, h) =
      keep_entry-AreEntries name (value_of v) (make_object fs) (value_of-AllJs v a)
        (make_object-AreEntries fs h)
  make_object-AreEntries (field name false v fs) (a, h) = make_object-AreEntries fs h

module _ {F : Type 0} where
  -- an element converts as it did before it was one
  again : (v : Value F) → IsJs v → value_of v ≡ some v → value_of (to_any v) ≡ some v
  unfolding value_of to_any
  again absent j h = refl
  again nil_ref j h = cc
  again (ref v) j h = absurd (not_ref v j)
    where
      not_ref : (w : Value F) → IsJs (ref w) → ⊥
      not_ref w x = elim x [ ]
  again v j h = h

mutual
  unfolding value_of make_array make_map keep_value keep_entry

  IsJs-fixed : {F : Type 0} (v : Value F) → IsJs v → value_of v ≡ some v
  IsJs-fixed _ js_absent = refl
  IsJs-fixed _ (js_string t) = refl
  IsJs-fixed _ (js_bool b) = refl
  IsJs-fixed _ (js_integer n) = refl
  IsJs-fixed _ (js_float x) = refl
  IsJs-fixed _ (js_mapping {es} h) = ap (λ x. some (mapping x)) (AreEntries-fixed es h)
  IsJs-fixed _ (js_slice {vs} h) = ap (λ x. some (slice x)) (AreValues-fixed vs h)

  AreValues-fixed : {F : Type 0} (vs : Values F) → AreValues vs → make_array vs ≡ vs
  AreValues-fixed _ js_no_values = refl
  AreValues-fixed _ (js_value {v} {vs} j h) =
      rw (again v j (IsJs-fixed v j), AreValues-fixed vs h) refl

  AreEntries-fixed : {F : Type 0} (es : Entries F) → AreEntries es → make_map es ≡ es
  AreEntries-fixed _ js_no_entries = refl
  AreEntries-fixed _ (js_entry {k} {v} {es} j h) =
      rw (again v j (IsJs-fixed v j), AreEntries-fixed es h) refl

-- Of a value without iterators and without numbers of a named type, the conversion either fails or
-- gives a value that js.ValueOf takes, and which it converts to itself.
pub value_of-IsJs :
    {F : Type 0} (v w : Value F)
    → IsOrdinary v
    → value_of v ≡ some w
    → IsJs w × (value_of w ≡ some w)
unfolding AllJs
value_of-IsJs v w n h = let j = subst AllJs h (value_of-AllJs v n) in (j, IsJs-fixed w j)
