-- ===== src/Observable/Binding/Synced.antt =====
-- observable/binding.go: the two values of a binding stay in step.
use zugoui.Prelude.{Text, List, ◌∷◌, Bool, Option, some, ◌≡◌}
use zugoui.Prelude.Dotted.{join}
use zugoui.Observable.PathObserver.{Node, Kids}
use zugoui.Observable.Binding.{
  Side, Xform, Binding, bound, transformer, new_binding, source_set, dest_set,
}
use zugoui.Observable.Binding.Tracking.{IsLeaf, Reaches}
use zugoui.Observable.Binding.Assigning.{Holds}

module _ {V : Type 0} (k : Text) (ks : List Text) (j : Text) (js : List Text)
    (get : Node V → Node V) where
  -- A binding that was made with key paths of these keys, and the changes of the two sides since.
  -- After each change the key path of the side leads to a value. The destination changes only where
  -- the way back undoes the transformer.
  pub data History : Binding V → Type 0 where
    made_with :
        (named : Text → Option (Xform V)) (mutable : Bool) (name : Text) (x : Xform V)
        (kids dest_kids : Kids V) (u d : Node V) {b : Binding V}
        → transformer named name ≡ some x
        → Xform.get x ≡ get
        → Reaches k ks kids u
        → Reaches j js dest_kids d
        → new_binding named mutable (join (k ∷ ks)) kids (join (j ∷ js)) dest_kids name ≡ bound b
        → History b
    source_changed :
        {b : Binding V} (ps : List Text) (key : Text) (v u : Node V)
        → History b
        → Reaches k ks (Side.kids (Binding.source (source_set ps key v b))) u
        → History (source_set ps key v b)
    dest_changed :
        {b : Binding V} (ps : List Text) (key : Text) (v d : Node V) (set : Node V → Node V)
        → History b
        → Reaches j js (Side.kids (Binding.dest (dest_set ps key v b))) d
        → Binding.dbind b ≡ some set
        → IsLeaf (set d)
        → get (set d) ≡ d
        → History (dest_set ps key v b)

  -- both path observers track their key paths, and the destination has what the transformer gives
  InStep : Binding V → Type 0
  InStep b =
      (u : Node V) × Holds k ks (Binding.source b) u
      × Holds j js (Binding.dest b) (get u)
      × (Binding.sbind b ≡ some get)
      × IsLeaf u
