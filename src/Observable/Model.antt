-- ===== src/Observable/Model.antt =====
-- observable/controllers/model.go: the controller of a slice, an array, a map, a struct or a single
-- value. Elements are of one type, `V`, and the package reflect that reads and writes them in place
-- is the list or map that the model holds. A value of type `any` is an `Option V`, with `none` for
-- nil. The cache of reflect values by key is left out, since it gives the places that it caches; the
-- cache of sub-sources is here, as what an operation releases. An operation returns the events that
-- it hands to the registry of observers, in order, and `none` for a panic of reflect.
pub mod Insert
pub mod Remove
pub mod Mirror
pub mod Reads
mod Tests
use zugoui.Prelude.{
  ℕ, zero, suc, ◌+◌, ◌-◌, Text, text_eq, codes, List, [], ◌∷◌, ◌++◌, Assoc, lookup, insert, without,
  Bool, true, false, Option, none, some, length, get_elem?, set, take, drop, replicate, ltb, leb,
  ◌==◌, if◌then◌else◌,
}
use zugoui.Prelude.Int.{ℤ, pos, negsuc}
use zugoui.Prelude.Decimal.{itoa, atoi}
use zugoui.Observable.Observe.{
  Event, set_value, insert_value_at, remove_value_at, set_value_at, set_value_for, remove_value_for,
}

pub data Body (V : Type 0) : Type 0 where
  slice : List V → Body V
  array : List V → Body V
  mapping : Assoc V → Body V
  nil_mapping : Body V
  struct : Assoc V → Body V
  single : V → Body V

pub record Model (S V : Type 0) : Type 0 where
  pub body : Body V
  pub sources : Assoc S

abbrev pub Events : Type 0 → Type 0
Events V = List (Event (Option V))

-- What an operation returns: the model, the events, and the sub-sources that it released.
pub record Effect (S V : Type 0) : Type 0 where
  pub model : Model S V
  pub events : Events V
  pub released : List S

-- reflect.Copy within one list: `n` elements from `from` to `to`, as by memmove.
unfoldable pub copy_within : {V : Type 0} → ℕ → ℕ → ℕ → List V → List V
copy_within to from n xs = take to xs ++ take n (drop from xs) ++ drop (to + n) xs

module _ {V : Type 0} where
  unfoldable pub elements : Body V → List V
  elements (slice xs) = xs
  elements (array xs) = xs
  elements _ = []

  -- ValueAt
  unfoldable pub value_at : Body V → ℤ → Option V
  unfolding elements
  value_at b (negsuc n) = none
  value_at b (pos i) = get_elem? (elements b) i

  -- the list after the growth, the copy and the write of InsertValueAt
  unfoldable pub inserted : V → ℕ → V → List V → List V
  unfolding copy_within
  inserted zero_elem i v xs =
      let l = length xs in
      let grown = xs ++ replicate (if leb l i then 1 + (i - l) else 1) zero_elem in
      set (if ltb i l then copy_within (i + 1) i (l - i) grown else grown) i v

  -- the list after the copy and SetLen of RemoveValueAt
  unfoldable pub removed : ℕ → List V → List V
  unfolding copy_within
  removed i xs =
      let l = length xs in
      take (l - 1) (if ltb (i + 1) l then copy_within i (i + 1) (l - 1 - i) xs else xs)

taken : {S : Type 0} → Option S → List S
taken none = []
taken (some s) = s ∷ []

module _ {S V : Type 0} where
  unfoldable pub start : Model S V → Effect S V
  start m = record { model = m; events = []; released = [] }

  unfoldable pub push : Event (Option V) → Effect S V → Effect S V
  push ev e = record e { events = e.events ++ ev ∷ [] }

  unfoldable pub with_body : Body V → Effect S V → Effect S V
  with_body b e = record e { model = record e.model { body = b } }

  -- m.sources.LoadAndDelete(key), with the release of what it found
  unfoldable pub drop_source : Text → Effect S V → Effect S V
  unfolding taken
  drop_source key e = record e {
    model = record e.model { sources = without key e.model.sources };
    released = e.released ++ taken (lookup key e.model.sources);
  }

  -- the rounds of the loop of updateFrom that are left
  unfoldable pub update_loop : ℕ → ℕ → Effect S V → Effect S V
  unfolding drop_source push
  update_loop i zero e = e
  update_loop i (suc left) e = update_loop (suc i) left (
      push (set_value (itoa (pos i)) (value_at e.model.body (pos i)))
        (drop_source (itoa (pos i)) e))

  -- updateFrom
  unfoldable pub update_from : ℕ → Bool → Effect S V → Effect S V
  unfolding update_loop elements
  update_from index remove_last e =
      let n = length (elements e.model.body) in
      update_loop index ((if remove_last then n + 1 else n) - index) e

  -- RemoveValueAt of a slice; reflect panics at a length below 0
  unfoldable pub remove_in : ℕ → List V → Model S V → (ℤ → V) → Option (Effect S V)
  unfolding push with_body start removed update_from
  remove_in i xs m of_int =
      let l = length xs in
      let e₁ = with_body (slice (removed i xs)) (start m) in
      let e₂ = push (remove_value_at (pos i)) (push (set_value (itoa (pos i)) none) e₁) in
      let e₃ = push (set_value (codes "len") (some (of_int (pos (l - 1))))) e₂ in
      if ltb l i then some (start m) else if l == 0 then none else some (update_from i true e₃)

len_event : {V : Type 0} → (ℤ → V) → ℕ → Event (Option V)
len_event of_int n = set_value (codes "len") (some (of_int (pos n)))

or_zero : {V : Type 0} → V → Option V → V
or_zero z none = z
or_zero z (some v) = v

-- SetMapIndex, which deletes the key for a nil value
put_entry : {V : Type 0} → Text → Option V → Assoc V → Assoc V
put_entry key none kvs = without key kvs
put_entry key (some v) kvs = insert key v kvs

module _ {S V : Type 0} (of_int : ℤ → V) (zero_elem : V) where
  -- grow, on a slice with the elements `xs`
  unfoldable pub grow : ℕ → List V → Effect S V → Effect S V
  unfolding len_event push with_body
  grow n xs e =
      push (len_event of_int (length xs + n)) (with_body (slice (xs ++ replicate n zero_elem)) e)

  -- InsertValueAt of a slice; reflect refuses to set a nil value
  unfoldable pub insert_in : ℕ → Option V → List V → Model S V → Option (Effect S V)
  unfolding grow len_event push with_body start inserted update_from
  insert_in i none xs m = none
  insert_in i (some v) xs m =
      let l = length xs in
      let ys = inserted zero_elem i v xs in
      let e₁ = grow (if leb l i then 1 + (i - l) else 1) xs (start m) in
      let e₂ = push (insert_value_at (pos i) (some v)) (with_body (slice ys) e₁) in
      some (update_from i false (push (len_event of_int (length ys)) e₂))

  insert_body : Body V → ℤ → Option V → Model S V → Option (Effect S V)
  insert_body (slice xs) (pos i) v m = insert_in i v xs m
  insert_body _ _ v m = some (start m)

  -- InsertValueAt
  unfoldable pub insert_at : ℤ → Option V → Model S V → Option (Effect S V)
  unfolding insert_body insert_in
  insert_at index v m = insert_body m.body index v m

  remove_body : Body V → ℤ → Model S V → Option (Effect S V)
  remove_body (slice xs) (pos i) m = remove_in i xs m of_int
  remove_body _ _ m = some (start m)

  -- RemoveValueAt
  unfoldable pub remove_at : ℤ → Model S V → Option (Effect S V)
  unfolding remove_body remove_in
  remove_at index m = remove_body m.body index m

  -- the end of SetValueAt: the write, at an index of the list, and its two events
  unfoldable pub write_at : ℕ → Option V → Effect S V → (List V → Body V) → Effect S V
  unfolding push with_body or_zero elements
  write_at i v e make =
      let written = set (elements e.model.body) i (or_zero zero_elem v) in
      push (set_value (itoa (pos i)) v) (push (set_value_at (pos i) v) (with_body (make written) e))

  set_at_body : Body V → ℤ → Option V → Model S V → Effect S V
  unfolding write_at grow start
  set_at_body (slice xs) (pos i) v m =
      let l = length xs in
      write_at i v (if leb l i then grow (1 + (i - l)) xs (start m) else start m) slice
  set_at_body (array xs) (pos i) v m =
      if leb (length xs) i then start m else write_at i v (start m) array
  set_at_body _ _ v m = start m

  -- SetValueAt
  unfoldable pub set_at : ℤ → Option V → Model S V → Effect S V
  unfolding set_at_body
  set_at index v m = set_at_body m.body index v m

module _ {S V : Type 0} where
  put_for : Text → Option V → Assoc V → Effect S V → Effect S V
  unfolding push with_body put_entry
  put_for key v kvs e =
      push (set_value key v)
        (push (set_value_for key v) (with_body (mapping (put_entry key v kvs)) e))

  set_for_body : Body V → Text → Option V → Effect S V → Effect S V
  unfolding put_for
  set_for_body (mapping kvs) key v e = put_for key v kvs e
  set_for_body nil_mapping key v e = put_for key v [] e
  set_for_body _ key v e = e

  -- SetValueFor
  unfoldable pub set_for : Text → Option V → Model S V → Effect S V
  unfolding set_for_body start
  set_for key v m = set_for_body m.body key v (start m)

  remove_for_body : Body V → Text → Effect S V → Effect S V
  unfolding push with_body
  remove_for_body (mapping kvs) key e =
      push (set_value key none)
        (push (remove_value_for key) (with_body (mapping (without key kvs)) e))
  remove_for_body _ key e = e

  -- RemoveValueFor
  unfoldable pub remove_for : Text → Model S V → Effect S V
  unfolding remove_for_body start
  remove_for key m = remove_for_body m.body key (start m)

module _ {S V : Type 0} (of_int : ℤ → V) (zero_elem : V) (zero_field : Text → V) where
  set_field : Text → Option V → Option V → Assoc V → Effect S V → Effect S V
  unfolding push with_body or_zero
  set_field key v none fs e = e
  set_field key v (some old) fs e =
      push (set_value key v) (with_body (struct (insert key (or_zero (zero_field key) v) fs)) e)

  set_single : Text → Option V → Effect S V → Effect S V
  unfolding push with_body or_zero
  set_single key v e =
      if text_eq key (codes "value")
      then push (set_value key v) (with_body (single (or_zero zero_elem v)) e)
      else e

  set_index : ℤ × Bool → Option V → Effect S V → Effect S V
  unfolding set_at
  set_index (i, false) v e = e
  set_index (i, true) v e = record (set_at of_int zero_elem i v e.model) { released = e.released }

  pub set_body : Body V → Text → Option V → Effect S V → Effect S V
  unfolding set_field set_single set_index remove_for_body put_for
  set_body (slice xs) key v e = set_index (atoi key) v e
  set_body (array xs) key v e = set_index (atoi key) v e
  set_body (mapping kvs) key none e = remove_for_body (mapping kvs) key e
  set_body (mapping kvs) key (some v) e = put_for key (some v) kvs e
  set_body nil_mapping key none e = e
  set_body nil_mapping key (some v) e = put_for key (some v) [] e
  set_body (struct fs) key v e = set_field key v (lookup key fs) fs e
  set_body (single old) key v e = set_single key v e

  -- SetValue, for a value of the type that it is set to
  unfoldable pub set_key : Text → Option V → Model S V → Effect S V
  unfolding set_body drop_source start
  set_key key v m = set_body m.body key v (drop_source key (start m))
