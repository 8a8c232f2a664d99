-- ===== src/Observable/PathObserver/Reports.antt =====
-- observable/path.go: what the observers of a PathObserver with a wildcard are told.
use zugoui.Prelude.{Text, List, [], ◌∷◌, Option, none, some, sym, subst, append_assoc}
use zugoui.Observable.PathObserver.{Node, Kids, Watch, write, deliver}

-- The keys that lead to a source, its key that is set, the value that it is set to, and the value
-- that the source gives for the key after that.
abbrev pub Write : Type 0 → Type 0
Write V = List Text × Text × Node V × Node V

module _ {V : Type 0} where
  after : Text → Node V → List Text → Option (Kids V) → Kids V × Watch → Kids V × Watch
  after key v ps none s = s
  after key v ps (some kids) s = (kids, (deliver ps key v kids s.1).0)

  -- a write, which does nothing where the keys lead to no source
  unfoldable pub apply : Write V → Kids V × Watch → Kids V × Watch
  unfolding after
  apply (ps, key, v, n) s = after key v ps (write ps key n s.0) s

  unfoldable pub run : List (Write V) → Kids V × Watch → Kids V × Watch
  unfolding apply
  run [] s = s
  run (x ∷ xs) s = run xs (apply x s)
