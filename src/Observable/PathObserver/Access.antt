-- ===== src/Observable/PathObserver/Access.antt =====
-- observable/path.go: reads and writes through a PathObserver, by a key path below it.
--
-- The key path is one that the path observer follows: its own, or any with a wildcard. Of such a
-- path a path observer hears every change, so that the source of its path observer of a key is the
-- one that the key holds. Of another path it may go on with a source that its key held before, which
-- is not modelled. The keys that lead to a source stand for the source. A write silences the root, so
-- it returns no notifications.
use zugoui.Prelude.{
  ℕ, zero, suc, Text, text_eq, List, [], ◌∷◌, Option, none, some, length, false, if◌then◌else◌,
}
use zugoui.Prelude.Dotted.{cut}
use zugoui.Observable.PathObserver.{
  Node, plain, nil, object, Kids, Watch, watch, joined, value_at, down_at, put_down, observe, write,
  deliver,
}

unfoldable pub behind : Text → Option (List Text × Text) → Option (List Text × Text)
behind key none = none
behind key (some (keys, last)) = some (key ∷ keys, last)

module _ {V : Type 0} where
  -- the path observer of a key, with the source that the key holds; it is made where there is none
  unfoldable pub opened : Text → Text → Text → Node V → Option Watch → Option (Kids V × Watch)
  unfolding observe
  opened prefix key rest (object inner) (some w) = some (inner, w)
  opened prefix key rest (object inner) none =
      some (inner, (observe (joined prefix key) rest false inner).0)
  opened prefix key rest _ x = none

  unfoldable pub descend :
      Text
      → (Kids V → Watch → Option (List Text × Text) × Watch)
      → Option (Kids V × Watch)
      → Watch
      → Option (List Text × Text) × Watch
  unfolding behind put_down
  descend key go none w = (none, w)
  descend key go (some (inner, w)) (watch prefix at suffix downs) =
      let (found, w') = go inner w in
      (behind key found, watch prefix at suffix (put_down key w' downs))

  -- atPrefix: the keys of the source that the key path leads to, and its last key; the fuel bounds
  -- the depth
  unfoldable pub at_prefix : ℕ → Text → Kids V → Watch → Option (List Text × Text) × Watch
  unfolding descend opened down_at value_at
  at_prefix zero key_path kids w = (none, w)
  at_prefix (suc fuel) key_path kids (watch prefix at suffix downs) =
      let (key, rest, _) = cut key_path in
      let inner =
        descend key (λ inner w. at_prefix fuel rest inner w)
          (opened prefix key rest (value_at key kids) (down_at key downs))
          (watch prefix at suffix downs) in
      if text_eq rest [] then (some ([], key), watch prefix at suffix downs) else inner

  -- GetKeyPath of the sources as they are
  unfoldable pub at_path : List Text → Text → Kids V → Node V
  unfolding value_at
  at_path [] key kids = value_at key kids
  at_path (p ∷ ps) key kids = elim (value_at p kids) [
    | plain v ↦ nil
    | nil ↦ nil
    | object inner ↦ at_path ps key inner
  ]

  unfoldable pub read_at : Option (List Text × Text) → Kids V → Node V
  unfolding at_path
  read_at none kids = nil
  read_at (some (ps, key)) kids = at_path ps key kids

  -- Value
  unfoldable pub value_of : Text → Kids V → Watch → Node V × Watch
  unfolding at_prefix read_at
  value_of key_path kids w =
      let (found, w') = at_prefix (suc (length key_path)) key_path kids w in
      (read_at found kids, w')

  unfoldable pub written :
      List Text → Text → Node V → Kids V → Watch → Option (Kids V) → Kids V × Watch
  unfolding deliver
  written ps key v kids w none = (kids, w)
  written ps key v kids w (some kids') = (kids', (deliver ps key v kids' w).0)

  unfoldable pub write_at : Option (List Text × Text) → Node V → Kids V → Watch → Kids V × Watch
  unfolding written write
  write_at none v kids w = (kids, w)
  write_at (some (ps, key)) v kids w = written ps key v kids w (write ps key v kids)

  -- SetValue
  unfoldable pub set_path : Text → Node V → Kids V → Watch → Kids V × Watch
  unfolding at_prefix write_at
  set_path key_path v kids w =
      let (found, w') = at_prefix (suc (length key_path)) key_path kids w in
      write_at found v kids w'
