-- ===== src/Observable/PathObserver/Trees.antt =====
-- observable/path.go: the sources below a root, as the sources of SetKeyPath and GetKeyPath.
use zugoui.Prelude.{Text, List, [], ◌∷◌, ◌++◌, true, Option, none, some, ◌≡◌, ◌≢◌, refl, ap}
use zugoui.Observable.KeyPath.{Any, source, Sources}
use zugoui.Observable.PathObserver.{Node, plain, nil, object, Kids, Watch, watch, value_at, write}
use zugoui.Observable.PathObserver.Access.{opened, behind, descend, at_path}

module _ {V : Type 0} where
  -- the source or the value that some keys lead to
  unfoldable pub node_at : List Text → Node V → Node V
  unfolding value_at
  node_at [] n = n
  node_at (p ∷ ps) (object kids) = node_at ps (value_at p kids)
  node_at (p ∷ ps) (plain v) = nil
  node_at (p ∷ ps) nil = nil

  unfoldable pub found_as : List Text → Node V → Any (List Text) (Node V)
  found_as ps (object inner) = source ps
  found_as ps (plain v) = Any.plain (plain v)
  found_as ps nil = Any.nil

  -- a value of a source at its place below the root
  unfoldable pub shown : Any (List Text) (Node V) → Kids V → Node V
  unfolding node_at
  shown (source ps) root = node_at ps (object root)
  shown (Any.plain n) root = n
  shown Any.nil root = nil

  unfoldable pub kept_or : Kids V → Option (Kids V) → Kids V
  kept_or root none = root
  kept_or root (some root') = root'

  unfoldable pub put_at : List Text → Text → Any (List Text) (Node V) → Kids V → Kids V
  unfolding kept_or shown write
  put_at ps key v root = kept_or root (write ps key (shown v root) root)

module _ {V : Type 0} (remove : List Text → Text → Kids V → Kids V) where
  -- The sources below a root, by the keys that lead to them; each can be set.
  abbrev pub tree : Sources
  tree = record {
    State = Kids V;
    Object = List Text;
    Datum = Node V;
    mutable = λ ps. true;
    value = λ ps key root. (found_as (ps ++ key ∷ []) (at_path ps key root), root);
    set_value = λ ps key v root. put_at ps key v root;
    set_value_for = λ ps key v root. put_at ps key v root;
    remove_value_for = λ ps key root. remove ps key root;
  }

module _ {V : Type 0} where
  no_object :
      (ps : List Text) (inner : Kids V)
      → ((x : V) → node_at ps (plain x) ≢ object inner) × (node_at ps nil ≢ object inner)
  unfolding node_at
  no_object [] inner = (λ x e. cc, λ e. cc)
  no_object (p ∷ ps) inner = (λ x e. cc, λ e. cc)

  at_path-by_value :
      (ps : List Text) (key : Text) (inner : Kids V)
      → ((k : Kids V)
          → node_at ps (object k) ≡ object inner
          → at_path ps key k ≡ value_at key inner)
      → (n : Node V) → node_at ps n ≡ object inner
      → elim n [ plain v ↦ nil | nil ↦ nil | object k ↦ at_path ps key k ] ≡ value_at key inner
  at_path-by_value ps key inner ih (object k) e = ih k e
  at_path-by_value ps key inner ih (plain x) e = absurd ((no_object ps inner).0 x e)
  at_path-by_value ps key inner ih nil e = absurd ((no_object ps inner).1 e)

  pub at_path-node_at :
      (ps : List Text) (key : Text) (root inner : Kids V)
      → node_at ps (object root) ≡ object inner
      → at_path ps key root ≡ value_at key inner
  unfolding at_path node_at
  at_path-node_at [] key root inner e = let e' : root ≡ inner = cc in ap (λ k. value_at key k) e'
  at_path-node_at (p ∷ ps) key root inner e =
      at_path-by_value ps key inner (λ k e. at_path-node_at ps key k inner e) (value_at p root) e

  node_at-append :
      (ps qs : List Text) (n : Node V) → node_at (ps ++ qs) n ≡ node_at qs (node_at ps n)
  unfolding node_at
  node_at-append [] qs n = refl
  node_at-append (p ∷ ps) qs (object k) = node_at-append ps qs (value_at p k)
  node_at-append (p ∷ ps) [] (plain x) = refl
  node_at-append (p ∷ ps) (q ∷ qs) (plain x) = refl
  node_at-append (p ∷ ps) [] nil = refl
  node_at-append (p ∷ ps) (q ∷ qs) nil = refl

  pub node_at-key :
      (ps : List Text) (key : Text) (root inner : Kids V)
      → node_at ps (object root) ≡ object inner
      → node_at (ps ++ key ∷ []) (object root) ≡ value_at key inner
  unfolding node_at
  node_at-key ps key root inner e = rw (node_at-append ps (key ∷ []) (object root), e) refl

  pub opened-object :
      (pre key rest : Text) (inner : Kids V) (d : Option Watch)
      → (w : Watch) × (opened pre key rest (object inner) d ≡ some (inner, w))
  unfolding opened
  opened-object pre key rest inner none = (_, refl)
  opened-object pre key rest inner (some w) = (w, refl)

  pub descend-found :
      (key : Text) (go : Kids V → Watch → Option (List Text × Text) × Watch) (inner : Kids V)
      (w' w : Watch)
      → (descend key go (some (inner, w')) w).0 ≡ behind key (go inner w').0
  unfolding descend
  descend-found key go inner w' (watch _ _ _ _) = refl
