-- ===== src/Input/ValueBindings.antt =====
-- input/valuebindings.go: the bindings of a model's key paths to the elements of a page.
--
-- A source is the tree of what its keys hold, with the names in the bind tag of each key. The page is
-- a test of which id paths have an element, and the transformers a test of their names.

pub mod Recorded
mod Tests
use zugoui.Prelude.{
  ℕ, Text, text_eq, codes, List, [], ◌∷◌, ◌++◌, Assoc, insert, Bool, true, false, ◌||◌, ◌==◌,
  Option, none, some, if◌then◌else◌,
}
use zugoui.Prelude.Dotted.{dot}

-- A source, with the source that NewValue makes of a new element where Elem() is not nil.
mutual
  pub data Tree : Type 0 where
    tree : Stub → Fields → Tree

  pub data Stub : Type 0 where
    no_elem : Stub
    elem_of : Tree → Stub

  pub data Fields : Type 0 where
    no_fields : Fields
    field : Text → Held → List Text → Fields → Fields

  -- what a key holds
  pub data Held : Type 0 where
    object : Tree → Held
    missing : Held
    plain : Held

-- A Binding, by the arguments that it was made with.
pub record Bound : Type 0 where
  pub key_path : Text
  pub property : Text
  pub id_path : Text
  pub xform : Text

pub record ValueBindings : Type 0 where
  pub id_paths : Assoc Text
  -- the ids of the inputs
  pub inputs : List Text
  pub bindings : List Bound

-- the state after a function, and the transformer's name that it failed at
abbrev pub Result : Type 0
Result = ValueBindings × Option Text

-- strings.Cut at a character
unfoldable pub cut_at : ℕ → Text → Text × Text
cut_at d [] = ([], [])
cut_at d (c ∷ s) =
    let (before, after) = cut_at d s in if c == d then ([], s) else (c ∷ before, after)

-- strings.TrimSuffix(s, ".")
unfoldable pub trim_dot : Text → Text
trim_dot [] = []
trim_dot (c ∷ []) = if c == dot then [] else c ∷ []
trim_dot (c ∷ d ∷ s) = c ∷ trim_dot (d ∷ s)

-- a name behind a path and a dot, or alone
unfoldable pub behind : Text → Text → Text
behind path name = if text_eq path [] then name else path ++ dot ∷ name

unfoldable pub has_id : Text → List Text → Bool
has_id id [] = false
has_id id (x ∷ xs) = text_eq x id || has_id id xs

-- Release
unfoldable pub release : ValueBindings → ValueBindings
release vb = record { id_paths = []; inputs = []; bindings = [] }

-- if err != nil { return err }
unfoldable pub and_then : Result → (ValueBindings → Result) → Result
and_then (vb, none) next = next vb
and_then (vb, some err) next = (vb, some err)

-- rebind of what a key holds, where that is a source, and whether the source has an Elem
abbrev pub Inner : Type 0
Inner = Option (Bool × (Text → Text → ValueBindings → Result))

-- a name of a bind tag: the id path, a property behind ">" and a transformer behind ";"
unfoldable pub parsed : Text → Text → Text → Bound
unfolding cut_at trim_dot behind
parsed id key_path binding =
    let (path, xform) = cut_at b';' (behind id binding) in
    let (path', property) = cut_at b'>' path in
    record {
      key_path = key_path;
      property = if text_eq property [] then codes "value" else property;
      id_path = trim_dot path';
      xform = xform;
    }

module _ (element : Text → Bool) (known : Text → Bool) where
  -- vb.inputs[idPath], or a new Input of its element; none where there is no element
  unfoldable pub with_input : Text → ValueBindings → Option ValueBindings
  unfolding has_id
  with_input id vb =
      if has_id id vb.inputs
      then some vb
      else if element id
      then some (record vb { inputs = id ∷ vb.inputs })
      else none

  -- from vb.IDPaths[idPath] = keyPath on
  unfoldable pub bind : Bound → ValueBindings → Result
  unfolding insert
  bind b vb =
      let vb' : ValueBindings = record vb { id_paths = insert b.id_path b.key_path vb.id_paths } in
      if text_eq b.xform [] || known b.xform
      then (record vb' { bindings = vb'.bindings ++ b ∷ [] }, none)
      else (vb', some b.xform)

  unfoldable pub bind_input : Bound → Option ValueBindings → ValueBindings → Result
  unfolding bind
  bind_input b none vb = (vb, none)
  bind_input b (some vb') vb = bind b vb'

  unfoldable pub bind_element : Bound → ValueBindings → Result
  unfolding bind_input with_input
  bind_element b vb = bind_input b (with_input b.id_path vb) vb

  -- the source of a key first; the base of a map, an array or a slice is not bound
  unfoldable pub bind_inner : Inner → Bound → ValueBindings → Result
  unfolding bind_element and_then
  bind_inner none b vb = bind_element b vb
  bind_inner (some (has_elem, go)) b vb =
      and_then (go b.id_path b.key_path vb)
        (λ vb. if has_elem then (vb, none) else bind_element b vb)

  -- the loop over the names of a bind tag
  unfoldable pub bind_all : Inner → Text → Text → List Text → ValueBindings → Result
  unfolding bind_inner parsed and_then
  bind_all inner id key_path [] vb = (vb, none)
  bind_all inner id key_path (binding ∷ bindings) vb =
      and_then (bind_inner inner (parsed id key_path binding) vb)
        (λ vb. bind_all inner id key_path bindings vb)

  -- a round of the loop over the keys
  unfoldable pub bind_key : Inner → Text → Text → List Text → ValueBindings → Result
  unfolding bind_all
  bind_key none id key_path [] vb = (vb, none)
  bind_key (some (has_elem, go)) id key_path [] vb = go id key_path vb
  bind_key inner id key_path (binding ∷ bindings) vb =
      bind_all inner id key_path (binding ∷ bindings) vb

-- the id path of a key, which is an index or a key of a map where there is an Elem
id_of : Inner → Text → Text → Text
id_of none key id = id
id_of (some x) key id = id ++ dot ∷ key

has_elem : Tree → Bool
has_elem (tree no_elem fs) = false
has_elem (tree (elem_of t) fs) = true

module _ (element : Text → Bool) (known : Text → Bool) where
  unfoldable mutual
    unfolding bind_key and_then behind has_elem id_of

    -- rebind
    pub rebind : Tree → Text → Text → ValueBindings → Result
    rebind (tree no_elem fs) id key_path vb = rebind_fields none fs id key_path vb
    rebind (tree (elem_of t) fs) id key_path vb =
        rebind_fields (some (has_elem t, λ id key_path vb. rebind t id key_path vb)) fs id key_path
          vb

    -- the loop over the keys, with what a missing element is in its place
    rebind_fields : Inner → Fields → Text → Text → ValueBindings → Result
    rebind_fields stub no_fields id key_path vb = (vb, none)
    rebind_fields stub (field key held tags fs) id key_path vb =
        and_then
          (bind_key element known (rebind_held stub held) (id_of stub key id) (behind key_path key)
            tags vb)
          (λ vb. rebind_fields stub fs id key_path vb)

    rebind_held : Inner → Held → Inner
    rebind_held stub (object t) = some (has_elem t, λ id key_path vb. rebind t id key_path vb)
    rebind_held stub missing = stub
    rebind_held stub plain = none

  -- the loop over vb.ids
  unfoldable pub rebind_ids : Tree → List Text → ValueBindings → Result
  unfolding rebind and_then
  rebind_ids t [] vb = (vb, none)
  rebind_ids t (id ∷ ids) vb = and_then (rebind t id [] vb) (λ vb. rebind_ids t ids vb)

  -- Rebind; what Release leaves is empty
  unfoldable pub rebind_all : Tree → List Text → ValueBindings → Result
  unfolding rebind rebind_ids release
  rebind_all t [] vb = rebind t [] [] (release vb)
  rebind_all t (id ∷ ids) vb = rebind_ids t (id ∷ ids) (release vb)

  -- NewValueBindings
  unfoldable pub new_value_bindings : Tree → List Text → Result
  unfolding rebind_all
  new_value_bindings t ids = rebind_all t ids (record { id_paths = []; inputs = []; bindings = [] })
