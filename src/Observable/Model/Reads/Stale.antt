-- ===== src/Observable/Model/Reads/Stale.antt =====
-- observable/controllers/model.go: SetValueFor leaves the sub-source of its key.
use zugoui.Prelude.{
  ℕ, Text, text_eq_refl, List, Assoc, insert, lookup, lookup-insert, Bool, false, Option, none,
  some, ◌≡◌, refl,
}
use zugoui.Prelude.Int.{ℤ}
use zugoui.Observable.Model.{
  Model, mapping, set_for, set_for_body, put_for, put_entry, start, push, with_body, or_zero,
}
use zugoui.Observable.Model.Reads.{
  source, value, from_cache, model_for, found, touched, touched_entry, present, read_of, converted,
  kept, value_for,
}

module _ {S V : Type 0} (of_int : ℤ → V) (capacity : List V → ℕ) (zero_elem : V) (is_nil : V → Bool)
    (source_of : Text → V → Option S) where
  value_cached :
      (key : Text) (s : S) (m : Model S V)
      → lookup key m.sources ≡ some s
      → (value of_int capacity zero_elem is_nil source_of key m).0 ≡ source s
  unfolding value from_cache
  value_cached key s m h = rw h refl

  -- the first Value of an entry of a map makes its sub-source and keeps it
  value_first :
      (sources : Assoc S) (kvs : Assoc V) (key : Text) (s : S) (v : V)
      → lookup key kvs ≡ some v
      → lookup key sources ≡ none
      → is_nil v ≡ false
      → source_of key v ≡ some s
      → value of_int capacity zero_elem is_nil source_of key
          (record { body = mapping kvs; sources = sources })
        ≡ (source s, record { body = mapping kvs; sources = insert key s sources })
  unfolding value from_cache model_for found touched touched_entry present read_of converted kept
  value_first sources kvs key s v h c n g = rw (c, h, n, g) refl

  -- When Value of an entry of a map has made a sub-source of the entry's value, SetValueFor stores
  -- another value, which ValueFor gives, but Value goes on to give the sub-source of the old value.
  pub value-stale :
      (sources : Assoc S) (kvs : Assoc V) (key : Text) (s : S) (v w : V)
      → lookup key kvs ≡ some v
      → lookup key sources ≡ none
      → is_nil v ≡ false
      → source_of key v ≡ some s
      → let (read, seen) =
          value of_int capacity zero_elem is_nil source_of key
            (record { body = mapping kvs; sources = sources }) in
        let written = (set_for key (some w) seen).model in
        (read ≡ source s)
        × (value_for of_int capacity zero_elem key written.body ≡ some w)
        × ((value of_int capacity zero_elem is_nil source_of key written).0 ≡ source s)
  unfolding set_for set_for_body put_for put_entry start push with_body or_zero value_for
  value-stale sources kvs key s v w h c n g = rw (value_first sources kvs key s v h c n g) (
    refl,
    rw (lookup-insert key key w kvs, text_eq_refl key) refl,
    value_cached key s _ (rw (lookup-insert key key s sources, text_eq_refl key) refl),
  )
