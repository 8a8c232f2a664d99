-- ===== src/Observable/Model/Reads.antt =====
-- observable/controllers/model.go: the reads of a model, with the sub-sources that they make and
-- keep, and Release.
--
-- A sub-source is known by the key and the value that it was made of: `source_of` stands for the
-- constructors of controllers and for NewValue, and gives none for a value that gets no source. The
-- elements are pointers, or other values that a sub-source does not share with its model, so a
-- sub-source is of the value that the key had when it was made. `is_nil` tells a nil interface, and
-- `capacity` is that of a slice.
pub mod Found
pub mod Cached
pub mod Fresh
pub mod Stale
mod Tests
use zugoui.Prelude.{
  ℕ, zero, suc, Text, text_eq, codes, List, [], ◌∷◌, map, Assoc, lookup, insert, Bool, true, false,
  Option, none, some, length, get_elem?, if◌then◌else◌,
}
use zugoui.Prelude.Int.{ℤ, pos, negsuc}
use zugoui.Prelude.Decimal.{itoa, atoi}
use zugoui.Observable.Model.{
  Body, slice, array, mapping, nil_mapping, struct, single, Model, value_at, elements, set_key,
}

-- What Value returns: nil, a sub-source, or the value itself. Value of a nil interface never
-- returns: its loop goes on to look at the same interface.
pub data Read (S V : Type 0) : Type 0 where
  endless : Read S V
  absent : Read S V
  source : S → Read S V
  plain : V → Read S V

-- strconv.Itoa of `n` numbers from `i` on
indices : ℕ → ℕ → List Text
indices i zero = []
indices i (suc n) = itoa (pos i) ∷ indices (suc i) n

module _ {V : Type 0} where
  -- Keys
  unfoldable pub keys : Body V → List Text
  unfolding indices
  keys (slice xs) = indices 0 (length xs)
  keys (array xs) = indices 0 (length xs)
  keys (mapping kvs) = map (λ r. r.0) kvs
  keys nil_mapping = []
  keys (struct fs) = map (λ r. r.0) fs
  keys (single v) = codes "value" ∷ []

  pub present : V → Option V → V
  present z none = z
  present z (some v) = v

  at_index : ℤ × Bool → List V → Option V
  unfolding value_at
  at_index (i, false) xs = none
  at_index (i, true) xs = value_at (slice xs) i

  -- an element that has no value yet is put into its map
  touched_entry : Text → V → Option V → Assoc V → Assoc V
  touched_entry key z none kvs = insert key z kvs
  touched_entry key z (some v) kvs = kvs

module _ {V : Type 0} (of_int : ℤ → V) (capacity : List V → ℕ) (zero_elem : V) where
  list_found : Text → List V → ℕ → Option V
  unfolding at_index
  list_found key xs cap =
      if text_eq key (codes "len")
      then some (of_int (pos (length xs)))
      else if text_eq key (codes "cap")
      then some (of_int (pos cap))
      else at_index (atoi key) xs

  -- the value that `key` finds
  unfoldable pub found : Text → Body V → Option V
  unfolding list_found present
  found key (slice xs) = list_found key xs (capacity xs)
  found key (array xs) = list_found key xs (length xs)
  found key (mapping kvs) = some (present zero_elem (lookup key kvs))
  found key nil_mapping = some zero_elem
  found key (struct fs) = lookup key fs
  found key (single v) = if text_eq key (codes "value") then some v else none

  -- what `key` leaves: it makes the missing entry of a map
  unfoldable pub touched : Text → Body V → Body V
  unfolding touched_entry
  touched key (mapping kvs) = mapping (touched_entry key zero_elem (lookup key kvs) kvs)
  touched key nil_mapping = mapping ((key, zero_elem) ∷ [])
  touched key b = b

  -- ValueFor, which makes no entry of a map
  unfoldable pub value_for : Text → Body V → Option V
  unfolding found
  value_for key (mapping kvs) = lookup key kvs
  value_for key nil_mapping = none
  value_for key b = found key b

  module _ {S : Type 0} (is_nil : V → Bool) (source_of : Text → V → Option S) where
    -- ModelFor
    unfoldable pub model_for : Text → Model S V → Option V × Model S V
    unfolding found touched
    model_for key m = (found key m.body, record m { body = touched key m.body })

    -- a value as Value returns it, with its sub-source if it gets one
    converted : V → Option S → Read S V
    converted v none = plain v
    converted v (some s) = source s

    unfoldable pub read_of : Text → Option V → Read S V
    unfolding converted
    read_of key none = absent
    read_of key (some v) = if is_nil v then endless else converted v (source_of key v)

    kept : Text → Read S V → Assoc S → Assoc S
    kept key (source s) sources = insert key s sources
    kept key _ sources = sources

    from_cache : Text → Option S → Model S V → Read S V × Model S V
    unfolding model_for read_of kept
    from_cache key (some s) m = (source s, m)
    from_cache key none m =
        let (v, m') = model_for key m in
        let r = read_of key v in (r, record m' { sources = kept key r m'.sources })

    -- Value
    unfoldable pub value : Text → Model S V → Read S V × Model S V
    unfolding from_cache
    value key m = from_cache key (lookup key m.sources) m

module _ {S V : Type 0} where
  -- Release, with the sub-sources that it releases
  unfoldable pub release : Model S V → Model S V × List S
  release m = (record m { sources = [] }, map (λ r. r.1) m.sources)
