-- ===== src/Jstypes/Tests.antt =====
-- jstypes/jsvalue.go: tests, and the theorem at a concrete input.
use zugoui.Prelude.{ℕ, codes, true, false, some, ◌≡◌, refl}
use zugoui.Prelude.Int.{pos}
use zugoui.Jstypes.{
  Value, nil_ref, ref, string, integer, mapping, nil_slice, slice, struct, seq, other, no_values,
  value, no_entries, entry, no_fields, field, value_of, js_value_of, plain,
}
use zugoui.Jstypes.Friendly.{IsJs, value_of-IsJs}

-- a struct with a pointer to a struct, a nil slice, a function and a field that is not exported
abbrev contact : Value ℕ
contact = ref (
    struct (
      field (codes "Name") true (string (codes "Ann")) (
        field (codes "Age") true (ref (integer (pos 40))) (
          field (codes "Tags") true nil_slice (
            field (codes "Hook") true other
              (field (codes "cache") false (integer (pos 1)) no_fields))))))

abbrev shown : Value ℕ
shown = mapping (
    entry (codes "Name") (ref (string (codes "Ann")))
      (entry (codes "Age") (ref (integer (pos 40))) (entry (codes "Tags") nil_ref no_entries)))

contact-shown : value_of contact ≡ some shown
unfolding value_of
contact-shown = refl

-- the elements of an iterator are not converted
iterated :
    js_value_of {F = ℕ}
      (plain (seq (value (struct (field (codes "A") true nil_ref no_fields)) no_values)))
    ≡ some (slice (value (ref (struct (field (codes "A") true nil_ref no_fields))) no_values))
unfolding js_value_of
iterated = refl

value_of-IsJs_example : IsJs shown × (value_of shown ≡ some shown)
value_of-IsJs_example = value_of-IsJs contact shown (tt, (tt, (tt, (tt, (tt, tt))))) contact-shown
