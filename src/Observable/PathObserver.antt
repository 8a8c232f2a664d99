-- ===== src/Observable/PathObserver.antt =====
-- observable/path.go: PathObserver, which tells the observers of its root about every change below
-- a key path.
--
-- A source is the tree of what its keys hold, and a path observer is the tree of its `down`: the
-- source that a path observer is registered with is the one at its place in the tree. A source that
-- is replaced is released with its observers, so a path observer of an old source hears nothing
-- more. A notification is a key path and the value that observers of the root get.
--
-- The tree holds what Value gives, which may be another value than the key was set to: a Model
-- makes a new instance for a nil pointer. So a change comes with the value that the observers get,
-- and `value_at` is of the tree after it. That a Model has a new entry for every key of a map that it
-- is asked for, the tree does not show.
pub mod Following
pub mod Reports
pub mod Access
pub mod Trees
pub mod Agreement
mod Tests
use zugoui.Prelude.{
  ℕ, Text, text_eq, codes, List, [], ◌∷◌, ◌++◌, Bool, true, false, ◌||◌, ◌&&◌, not, Option, none,
  some, if◌then◌else◌,
}
use zugoui.Prelude.Dotted.{cut}
use zugoui.Observable.KeyPath.{join_key_path}

-- What a source holds: values that are no sources, nil, and sources.
mutual
  pub data Node (V : Type 0) : Type 0 where
    plain : V → Node V
    nil : Node V
    object : Kids V → Node V

  pub data Kids (V : Type 0) : Type 0 where
    no_kids : Kids V
    kid : Text → Node V → Kids V → Kids V

-- A PathObserver, with the key under which it is registered with its source.
mutual
  pub data Watch : Type 0 where
    watch : Text → Text → Text → Downs → Watch

  pub data Downs : Type 0 where
    no_downs : Downs
    down : Text → Watch → Downs → Downs

abbrev pub Notices : Type 0 → Type 0
Notices V = List (Text × Node V)

-- JoinKeyPath of two parts
abbrev pub joined : Text → Text → Text
joined prefix key = join_key_path (prefix ∷ key ∷ [])

abbrev pub star : Text
star = codes "*"

module _ {V : Type 0} where
  -- source.Value(key)
  unfoldable pub value_at : Text → Kids V → Node V
  value_at key no_kids = nil
  value_at key (kid k n kids) = if text_eq k key then n else value_at key kids

  -- what a source holds after SetValue
  unfoldable pub put : Text → Node V → Kids V → Kids V
  put key v no_kids = kid key v no_kids
  put key v (kid k n kids) = if text_eq k key then kid k v kids else kid k n (put key v kids)

  unfoldable pub is_nil : Node V → Bool
  is_nil nil = true
  is_nil _ = false

  -- o.root.Observe.SetValue where `notify` says so
  unfoldable pub told_if : Bool → Text → Node V → Notices V
  told_if notify path v = if notify then (path, v) ∷ [] else []

-- o.down[key], delete(o.down, key), and o.down[key] = v
unfoldable pub down_at : Text → Downs → Option Watch
down_at key no_downs = none
down_at key (down k w downs) = if text_eq k key then some w else down_at key downs

unfoldable pub without_down : Text → Downs → Downs
without_down key no_downs = no_downs
without_down key (down k w downs) =
    let rest = without_down key downs in if text_eq k key then rest else down k w rest

unfoldable pub put_down : Text → Watch → Downs → Downs
unfolding without_down
put_down key w downs = down key w (without_down key downs)

-- the key and the suffix of a key path, with a wildcard as no key and itself
unfoldable pub key_and_suffix : Text → Text × Text
key_and_suffix key_path =
    let (key, suffix, _) = cut key_path in if text_eq key star then ([], star) else (key, suffix)

unfoldable pub kept_at : Text → Option Watch → Downs → Downs
kept_at key none downs = downs
kept_at key (some w) downs = down key w downs

module _ {V : Type 0} where
  -- a path observer with its prefix, its key and its suffix, from what it has for every key of its
  -- source, and for its own key alone
  unfoldable pub built :
      Text → Text × Text → Downs × Notices V → Downs × Notices V → Watch × Notices V
  built prefix (key, suffix) all one =
      let (downs, out) = if text_eq key [] then all else one in (watch prefix key suffix downs, out)

unfoldable mutual
  unfolding told_if key_and_suffix built kept_at

  -- newPathObserver: the loop over source.Keys()
  pub observe_all : {V : Type 0} → Text → Text → Bool → Kids V → Downs × Notices V
  observe_all prefix suffix notify no_kids = (no_downs, [])
  observe_all prefix suffix notify (kid k n kids) =
      let (w, out) = observe_at prefix k suffix notify n in
      let (downs, outs) = observe_all prefix suffix notify kids in (kept_at k w downs, out ++ outs)

  -- the loop over one key
  pub observe_one : {V : Type 0} → Text → Text → Text → Bool → Kids V → Downs × Notices V
  observe_one prefix key suffix notify no_kids = (no_downs, told_if notify (joined prefix key) nil)
  observe_one prefix key suffix notify (kid k n kids) =
      let (w, out) = observe_at prefix k suffix notify n in
      let rest = observe_one prefix key suffix notify kids in
      if text_eq k key then (kept_at k w no_downs, out) else rest

  -- a round of the loop: the path observer of the key, if it gets one, and what the root notifies
  pub observe_at : {V : Type 0} → Text → Text → Text → Bool → Node V → Option Watch × Notices V
  observe_at prefix key suffix notify (object kids) =
      let inner = key_and_suffix suffix in
      let (w, out) =
        built (joined prefix key) inner (observe_all (joined prefix key) inner.1 notify kids)
          (observe_one (joined prefix key) inner.0 inner.1 notify kids) in
      if text_eq suffix [] then (none, []) else (some w, out)
  observe_at prefix key suffix notify (plain v) =
      (none, told_if notify (joined prefix key) (plain v))
  observe_at prefix key suffix notify nil = (none, told_if notify (joined prefix key) nil)

module _ {V : Type 0} where
  -- newPathObserver of a source that holds `kids`, with the prefix that it gets
  unfoldable pub observe : Text → Text → Bool → Kids V → Watch × Notices V
  unfolding observe_all built key_and_suffix
  observe prefix key_path notify kids =
      let (key, suffix) = key_and_suffix key_path in
      built prefix (key, suffix) (observe_all prefix suffix notify kids)
        (observe_one prefix key suffix notify kids)

  -- NewPathObserver
  unfoldable pub new_path_observer : Text → Kids V → Watch
  unfolding observe
  new_path_observer key_path kids = (observe [] key_path false kids).0

  -- the last branch of setValue
  unfoldable pub renew : Text → Text → Text → Text → Downs → Node V → Watch × Notices V
  unfolding observe put_down
  renew prefix at suffix key downs (object kids) =
      let (w, out) = observe (joined prefix key) suffix true kids in
      (watch prefix at suffix (put_down key w downs), out)
  renew prefix at suffix key downs _ = (watch prefix at suffix downs, [])

  -- setValue, with what the source holds after the change
  unfoldable pub set_value : Text → Node V → Kids V → Watch → Watch × Notices V
  unfolding renew is_nil
  set_value key v kids (watch prefix at suffix downs) =
      let old = without_down key downs in
      let here : Text × Node V = (joined prefix key, v) in
      let gone : Text × Node V = (join_key_path (prefix ∷ key ∷ suffix ∷ []), nil) in
      let (w, out) = renew prefix at suffix key old (value_at key kids) in
      if text_eq suffix []
      then (watch prefix at suffix old, here ∷ [])
      else if not (text_eq suffix star) && is_nil v
      then (watch prefix at suffix old, here ∷ gone ∷ [])
      else (w, here ∷ out)

  -- the source of a path observer notifies a change of a key to it, if it is registered for the key
  unfoldable pub heard : Text → Node V → Kids V → Watch → Watch × Notices V
  unfolding set_value
  heard key v kids (watch prefix at suffix downs) =
      let told = set_value key v kids (watch prefix at suffix downs) in
      if text_eq at [] || text_eq at key then told else (watch prefix at suffix downs, [])

module _ {V : Type 0} where
  -- the source that a key holds after a change of it, in its place
  unfoldable pub put_in : Text → (Kids V → Option (Kids V)) → Node V → Kids V → Option (Kids V)
  put_in p change (object inner) kids = elim (change inner) [
    | none ↦ none
    | some inner' ↦ some (put p (object inner') kids)
  ]
  put_in p change _ kids = none

  -- SetValue of a key of the source that some keys lead to, if there is one, by what that source
  -- gives for the key after it
  unfoldable pub write : List Text → Text → Node V → Kids V → Option (Kids V)
  unfolding put_in put
  write [] key v kids = some (put key v kids)
  write (p ∷ ps) key v kids = put_in p (λ inner. write ps key v inner) (value_at p kids) kids

  -- a path observer whose path observer of a key is told something
  unfoldable pub passed :
      Text
      → (Kids V → Watch → Watch × Notices V)
      → Node V
      → Option Watch
      → Watch
      → Watch × Notices V
  unfolding put_down
  passed p tell (object inner) (some w) (watch prefix at suffix downs) =
      let (w', out) = tell inner w in (watch prefix at suffix (put_down p w' downs), out)
  passed p tell _ _ w = (w, [])

  -- the notification of the source that some keys lead to, after its change, to its path observer
  unfoldable pub deliver : List Text → Text → Node V → Kids V → Watch → Watch × Notices V
  unfolding heard passed value_at down_at
  deliver [] key v kids w = heard key v kids w
  deliver (p ∷ ps) key v kids (watch prefix at suffix downs) =
      passed p (λ inner w. deliver ps key v inner w) (value_at p kids) (down_at p downs)
        (watch prefix at suffix downs)
