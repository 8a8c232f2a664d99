-- ===== src/Jsglue/Stood.antt =====
-- jsglue/types.go: SetValue sets what a value of the page stands for.
use zugoui.Prelude.{ℕ, ◌<◌, ◌*◌, ◌%◌, Text, List, true, false, none, ◌≡◌, refl, arith}
use zugoui.Prelude.Int.{ℤ, pos, negsuc}
use zugoui.Jsglue.{
  undefined, unmarshaler, Js, Width, w8, w16, w32, w64, half, GoType, Fields, Value, slice, Values,
  also, Entries, to_uint, to_int, nil,
}
use zugoui.Jsglue.Setting.{
  is_nullish, is_number, is_string, is_object, or_set, or_failed, slice_from, or_zero, set_entry,
  set_slice, set_array, set_map, unmarshaled, checked, if_object, set_int, set_uint, set_float,
  pointed, pointer_with, array_with, set_kind, set_fields, set_value,
}
use zugoui.Jsglue.Setting
use zugoui.Jsglue.Stands.{
  Fits, Stands, StandAll, StandEach, StandFor, StandIn, zero, stands_text, stands_bool, stands_int,
  stands_int_text, stands_uint, stands_uint_text, stands_float, stands_slice, stands_array,
  stands_map, stands_new_map, stands_struct, stands_pointer, stands_new, all_end, all_more,
  each_end, each_more, for_end, for_more, in_end, in_field, in_missing, in_hidden,
}

to_int-Fits : (w : Width) (i : ℤ) → Fits w i → to_int w i ≡ i
unfolding to_int to_uint
to_int-Fits w8 (pos n) h = ground arith
to_int-Fits w16 (pos n) h = ground arith
to_int-Fits w32 (pos n) h = ground arith
to_int-Fits w64 (pos n) h = ground arith
to_int-Fits w8 (negsuc n) h = ground arith
to_int-Fits w16 (negsuc n) h = ground arith
to_int-Fits w32 (negsuc n) h = ground arith
to_int-Fits w64 (negsuc n) h = ground arith

small : (w : Width) (n : ℕ) → n < 2 * half w → n % (2 * half w) ≡ n
small w8 n h = omega arith
small w16 n h = omega arith
small w32 n h = omega arith
small w64 n h = omega arith

module _ {F : Type 0} where
  slice_from-also : (v w : Value F) (ws : Values F) → slice_from v (also w ws) ≡ slice (also w ws)
  unfolding slice_from
  slice_from-also nil w ws = refl
  slice_from-also _ w ws = refl

module _ {J F : Type 0} (js : Js J F) where
  -- such a value is not unmarshaled, and neither null nor undefined
  unchecked :
      (t : GoType) (j : J) (v w : Value F)
      → Stands js t j v w
      → (unmarshaled js t j ≡ none) × (is_nullish (js.type_of j) ≡ false)
  unfolding unmarshaled is_nullish
  unchecked _ j v _ (stands_text _ _ e) = (refl, rw e refl)
  unchecked _ j v _ (stands_bool _ _ e) = (refl, rw e refl)
  unchecked _ j v _ (stands_int _ _ _ e f) = (refl, rw e refl)
  unchecked _ j v _ (stands_int_text _ _ _ _ e p f) = (refl, rw e refl)
  unchecked _ j v _ (stands_uint _ _ _ _ e p f) = (refl, rw e refl)
  unchecked _ j v _ (stands_uint_text _ _ _ _ e p f) = (refl, rw e refl)
  unchecked _ j v _ (stands_float _ _ e) = (refl, rw e refl)
  unchecked _ j v _ (stands_slice _ _ _ _ _ e a) = (refl, rw e refl)
  unchecked _ j _ _ (stands_array _ _ _ _ _ e a) = (refl, rw e refl)
  unchecked _ j _ _ (stands_map _ _ _ _ e a) = (refl, rw e refl)
  unchecked _ j _ _ (stands_new_map _ _ _ e a) = (refl, rw e refl)
  unchecked _ j _ _ (stands_struct _ _ _ _ e a) = (refl, rw e refl)
  unchecked _ j _ _ (stands_pointer _ t v w s) = (refl, (unchecked t j v w s).1)
  unchecked _ j _ _ (stands_new _ t w s) = (refl, (unchecked t j (zero js t) w s).1)

  checked-Stands :
      (t : GoType) (j : J) (v w : Value F)
      → Stands js t j v w
      → set_kind js t j v ≡ (w, true)
      → checked js t (λ j v. set_kind js t j v) j v ≡ (w, true)
  unfolding checked or_set
  checked-Stands t j v w s e = let (u, n) = unchecked t j v w s in rw (u, n) e

  not_unmarshaled : (t : GoType) (j : J) → js.type_of j ≡ undefined → unmarshaled js t j ≡ none
  unfolding unmarshaled is_string
  not_unmarshaled (unmarshaler u t) j e = rw e refl
  not_unmarshaled _ j e = refl

  missing-zero :
      (t : GoType) (j : J) (v : Value F)
      → js.type_of j ≡ undefined
      → checked js t (λ j v. set_kind js t j v) j v ≡ (zero js t, true)
  unfolding checked or_set is_nullish
  missing-zero t j v e = rw (not_unmarshaled t j e, e) refl

  mutual
    unfolding set_kind set_int set_uint set_float if_object is_object is_number or_failed to_uint
        pointed pointer_with array_with or_zero set_slice set_array set_map set_entry

    set_kind-Stands :
        (t : GoType) (j : J) (v w : Value F) → Stands js t j v w → set_kind js t j v ≡ (w, true)
    set_kind-Stands _ j v _ (stands_text _ _ e) = refl
    set_kind-Stands _ j v _ (stands_bool _ _ e) = refl
    set_kind-Stands _ j v _ (stands_int _ _ w e f) = rw (e, to_int-Fits w (js.int_of j) f) refl
    set_kind-Stands _ j v _ (stands_int_text _ _ w i e p f) = rw (e, p, to_int-Fits w i f) refl
    set_kind-Stands _ j v _ (stands_uint _ _ w n e p f) = rw (e, p, small w n f) refl
    set_kind-Stands _ j v _ (stands_uint_text _ _ w n e p f) = rw (e, p, small w n f) refl
    set_kind-Stands _ j v _ (stands_float _ _ e) = rw e refl
    set_kind-Stands _ j v _ (stands_slice _ _ t w ws e a) =
        rw (e, set_slice-StandAll t (js.iterate j) (also w ws) a, slice_from-also v w ws) refl
    set_kind-Stands _ j _ _ (stands_array _ n t vs ws e a) =
        rw (e, set_array-StandEach t (js.iterate j) vs ws a) refl
    set_kind-Stands _ j _ _ (stands_map _ t m m' e a) =
        rw (e, set_map-StandFor t (js.entries j) m m' a) refl
    set_kind-Stands _ j _ _ (stands_new_map _ t m e a) =
        rw (e, set_map-StandFor t (js.entries j) _ m a) refl
    set_kind-Stands _ j _ _ (stands_struct _ fs vs ws e a) =
        rw (e, set_fields-StandIn fs j vs ws a) refl
    set_kind-Stands _ j _ _ (stands_pointer _ t v w s) = rw (set_kind-Stands t j v w s) refl
    set_kind-Stands _ j _ _ (stands_new _ t w s) = rw (set_kind-Stands t j (zero js t) w s) refl

    set_slice-StandAll :
        (t : GoType) (es : List J) (ws : Values F)
        → StandAll js t es ws
        → set_slice (λ e. (checked js t (λ e v. set_kind js t e v) e (Setting.zero js t)).0) es ≡ ws
    set_slice-StandAll t _ _ (all_end _) = refl
    set_slice-StandAll t _ _ (all_more _ e es w ws s a) =
        rw
          (
            checked-Stands t e (zero js t) w s (set_kind-Stands t e (zero js t) w s),
            set_slice-StandAll t es ws a,
          )
          refl

    set_array-StandEach :
        (t : GoType) (es : List J) (vs ws : Values F)
        → StandEach js t es vs ws
        → set_array (λ e v. checked js t (λ e v. set_kind js t e v) e v) (Setting.zero js t) es vs
          ≡ (ws, true)
    set_array-StandEach t _ vs _ (each_end _ _) = refl
    set_array-StandEach t _ _ _ (each_more _ e es v w vs ws s a) =
        rw (checked-Stands t e v w s (set_kind-Stands t e v w s), set_array-StandEach t es vs ws a)
          refl

    set_map-StandFor :
        (t : GoType) (es : List (Text × J)) (m m' : Entries F)
        → StandFor js t es m m'
        → set_map (λ e. checked js t (λ e v. set_kind js t e v) e (Setting.zero js t)) es m ≡ m'
    set_map-StandFor t _ m _ (for_end _ _) = refl
    set_map-StandFor t _ m m' (for_more _ k e es w _ _ s a) =
        rw (checked-Stands t e (zero js t) w s (set_kind-Stands t e (zero js t) w s))
          (set_map-StandFor t es _ m' a)

    set_fields-StandIn :
        (fs : Fields) (j : J) (vs ws : Values F)
        → StandIn js fs j vs ws
        → set_fields js fs j vs ≡ ws
    set_fields-StandIn _ j _ _ (in_end _) = refl
    set_fields-StandIn _ j _ _ (in_field name t fs _ v w vs ws s a) =
        rw
          (
            checked-Stands t (js.get name j) v w s (set_kind-Stands t (js.get name j) v w s),
            set_fields-StandIn fs j vs ws a,
          )
          refl
    set_fields-StandIn _ j _ _ (in_missing name t fs _ v vs ws e a) =
        rw (missing-zero t (js.get name j) v e, set_fields-StandIn fs j vs ws a) refl
    set_fields-StandIn _ j _ _ (in_hidden name t fs _ v vs ws a) =
        rw (set_fields-StandIn fs j vs ws a) refl

  -- Where a value of the page stands for a value of a type in the place of another one, SetValue
  -- succeeds and puts that value there: a number, or a text of it, that is in the range of the type,
  -- the elements of a non-empty slice or the first of an array, the entries of a map with its other
  -- ones, the exported fields of a struct by their names, and zero for those that are undefined.
  pub set_value-Stands :
      (t : GoType) (j : J) (v w : Value F) → Stands js t j v w → set_value js t j v ≡ (w, true)
  unfolding set_value
  set_value-Stands t j v w s = checked-Stands t j v w s (set_kind-Stands t j v w s)
