-- ===== src/Observable/KeyPath.antt =====
-- observable/path.go and observable/source.go: reading and setting a key path, and joining key paths.
-- A source is an object behind an interface, so it is a reference here, and `Sources` is what the
-- functions call of it: reading a key may change the object (a map gets the missing key).
pub mod Joining
pub mod Walk
mod Tests
use zugoui.Prelude.{
  ℕ, zero, suc, ◌+◌, Text, text_eq, List, [], ◌∷◌, ◌++◌, Bool, true, false, Option, none, some,
  length, if◌then◌else◌,
}
use zugoui.Prelude.Dotted.{cut, dot}

-- A value of type `any`, as far as these functions tell values apart.
pub data Any (S V : Type 0) : Type 0 where
  source : S → Any S V
  plain : V → Any S V
  nil : Any S V

-- The interfaces Source and MutableSource: the objects, and the state that they share.
pub record Sources : Type 1 where
  pub State : Type 0
  pub Object : Type 0
  pub Datum : Type 0
  pub mutable : Object → Bool
  pub value : Object → Text → State → Any Object Datum × State
  pub set_value : Object → Text → Any Object Datum → State → State
  pub set_value_for : Object → Text → Any Object Datum → State → State
  pub remove_value_for : Object → Text → State → State

-- What SetKeyPath returns; each error names the key path at which it arose.
pub data Outcome : Type 0 where
  done : Outcome
  immutable : Text → Outcome
  not_source : Text → Outcome
  out_of_fuel : Outcome

module _ (o : Sources) where
  open o use {State, Object, Datum, mutable, value, set_value, set_value_for, remove_value_for}

  -- The fuel bounds the depth of the calls; more than the length of the key path is enough.
  unfoldable pub set_loop : ℕ → Object → Text → Any Object Datum → State → Outcome × State
  set_loop zero s key_path v st = (out_of_fuel, st)
  set_loop (suc fuel) s key_path v st =
      let (key, suffix, _) = cut key_path in
      let leaf : Outcome × State =
        if mutable s then (done, set_value s key v st) else (immutable key_path, st) in
      let (found, st') = value s key st in
      let inner : Outcome × State = elim found [
        | source s' ↦ set_loop fuel s' suffix v st'
        | plain _ ↦ (not_source key_path, st')
        | nil ↦ (not_source key_path, st')
      ] in
      if text_eq suffix [] then leaf else inner

  unfoldable pub set_key_path : Object → Text → Any Object Datum → State → Outcome × State
  unfolding set_loop
  set_key_path s key_path = set_loop (suc (length key_path)) s key_path

  -- `none` is fuel that ran out
  unfoldable pub get_loop : ℕ → Object → Text → State → Option (Any Object Datum) × State
  get_loop zero s key_path st = (none, st)
  get_loop (suc fuel) s key_path st =
      let (key, suffix, _) = cut key_path in
      let (found, st') = value s key st in
      let inner : Option (Any Object Datum) × State = elim found [
        | source s' ↦ get_loop fuel s' suffix st'
        | plain _ ↦ (some nil, st')
        | nil ↦ (some nil, st')
      ] in
      if text_eq suffix [] then (some found, st') else inner

  unfoldable pub get_key_path : Object → Text → State → Option (Any Object Datum) × State
  unfolding get_loop
  get_key_path s key_path = get_loop (suc (length key_path)) s key_path

  -- PathSetter.keyPath: `f` is called on the last object of the path, if it is mutable; `none` is
  -- fuel that ran out
  unfoldable pub setter_loop :
      ℕ → Object → Text → (Object → Text → State → State) → State → Option State
  setter_loop zero s key_path f st = none
  setter_loop (suc fuel) s key_path f st =
      let (key, suffix, _) = cut key_path in
      let (found, st') = value s key st in
      let inner : Option State = elim found [
        | source s' ↦ setter_loop fuel s' suffix f st'
        | plain _ ↦ some st'
        | nil ↦ some st'
      ] in
      if text_eq suffix [] then some (if mutable s then f s key st else st) else inner

  unfoldable pub setter_set_value : Object → Text → Any Object Datum → State → Option State
  unfolding setter_loop
  setter_set_value s key_path v =
      setter_loop (suc (length key_path)) s key_path (λ m key. set_value m key v)

  unfoldable pub setter_set_value_for : Object → Text → Any Object Datum → State → Option State
  unfolding setter_loop
  setter_set_value_for s key_path v =
      setter_loop (suc (length key_path)) s key_path (λ m key. set_value_for m key v)

  unfoldable pub setter_remove_value_for : Object → Text → State → Option State
  unfolding setter_loop
  setter_remove_value_for s key_path =
      setter_loop (suc (length key_path)) s key_path (λ m key. remove_value_for m key)

-- JoinKeyPath: `out` is what the builder holds
join_loop : List Text → Text → Text
join_loop [] out = out
join_loop (p ∷ ps) out =
    join_loop ps
      (if text_eq p [] then out else (if text_eq out [] then out else out ++ dot ∷ []) ++ p)

unfoldable pub join_key_path : List Text → Text
unfolding join_loop
join_key_path parts = join_loop parts []
