-- ===== src/Observable/PathObserver/Agreement.antt =====
-- observable/path.go: a PathObserver with a wildcard writes what SetKeyPath does.
use zugoui.Prelude.{
  ℕ, Text, List, [], ◌∷◌, ◌++◌, Option, none, some, ◌≡◌, refl, sym, ap, ◌∙◌, append_assoc,
}
use zugoui.Observable.KeyPath.{Any, source, Outcome, set_loop}
use zugoui.Observable.PathObserver.{Node, plain, nil, object, Kids, Watch}
use zugoui.Observable.PathObserver.Access.{opened, behind, descend, at_prefix}
use zugoui.Observable.PathObserver.Trees.{
  node_at, found_as, put_at, tree, opened-object, descend-found,
}

module _ {V : Type 0} (remove : List Text → Text → Kids V → Kids V) where
  -- SetValue of the source that a path observer found, behind the keys that lead to it
  set_found : List Text → Option (List Text × Text) → Any (List Text) (Node V) → Kids V → Kids V
  unfolding put_at
  set_found ps none v root = root
  set_found ps (some (qs, last)) v root = put_at (ps ++ qs) last v root

  set_behind :
      (ps : List Text) (key : Text) (found : Option (List Text × Text))
      (v : Any (List Text) (Node V)) (root : Kids V)
      → set_found ps (behind key found) v root ≡ set_found (ps ++ key ∷ []) found v root
  unfolding set_found behind
  set_behind ps key none v root = refl
  set_behind ps key (some (qs, last)) v root =
      ap (λ ks. put_at ks last v root) (sym (append_assoc ps (key ∷ []) qs))

  -- a round of SetKeyPath after the value of the key
  gone_on :
      (List Text → Outcome × Kids V)
      → Outcome
      → Kids V
      → Any (List Text) (Node V)
      → Outcome × Kids V
  gone_on go failed root found = elim found [
    | source s ↦ go s
    | Any.plain x ↦ (failed, root)
    | Any.nil ↦ (failed, root)
  ]

  -- that round, and the descent for that value
  round :
      (fuel : ℕ) (ps : List Text) (pre key rest : Text) (root : Kids V) (w : Watch)
      (d : Option Watch) (v : Any (List Text) (Node V)) (failed : Outcome)
      → ((k : Kids V) (w : Watch)
          → node_at (ps ++ key ∷ []) (object root) ≡ object k
          → set_found (ps ++ key ∷ []) (at_prefix fuel rest k w).0 v root
            ≡ (set_loop (tree remove) fuel (ps ++ key ∷ []) rest v root).1)
      → (n : Node V) → node_at (ps ++ key ∷ []) (object root) ≡ n
      → set_found ps
          (descend key (λ inner w. at_prefix fuel rest inner w) (opened pre key rest n d) w).0
          v
          root
        ≡ (gone_on
            (λ s. set_loop (tree remove) fuel s rest v root)
            failed
            root
            (found_as (ps ++ key ∷ []) n)).1
  unfolding gone_on found_as opened descend set_found
  round fuel ps pre key rest root w d v failed ih (plain x) e = refl
  round fuel ps pre key rest root w d v failed ih nil e = refl
  round fuel ps pre key rest root w d v failed ih (object k) e =
      let (w', o) = opened-object pre key rest k d in
      rw (o, descend-found key (λ inner w. at_prefix fuel rest inner w) k w' w)
        (set_behind ps key (at_prefix fuel rest k w').0 v root ∙ ih k w' e)
