-- ===== src/Observable/Binding/Sides.antt =====
-- observable/binding.go: the side of a binding that changes, and the side that it sets.
use zugoui.Prelude.{
  Text, text_eq, suc, text_eq_refl, List, [], ◌∷◌, ◌++◌, All, false, Option, none, some, ◌≡◌, ◌⊎◌,
  refl, ◌∙◌, inl, inr, length, arith,
}
use zugoui.Prelude.Dotted.{join}
use zugoui.Observable.PathObserver.{Node, Kids, Notices, new_path_observer, write}
use zugoui.Observable.PathObserver.Access.{value_of, read_at}
use zugoui.Observable.Binding.{Side, side_of, moved, assign, send, changed_by, changed}
use zugoui.Observable.Binding.Paths.{IsStep, spot-join, text_eq-join}
use zugoui.Observable.Binding.Tracking.{Reaches, observe-Tracks}
use zugoui.Observable.Binding.Hearing.{Told, Reaches-same}
use zugoui.Observable.Binding.Delivery.{deliver-Told}
use zugoui.Observable.Binding.Assigning.{Holds, at_prefix-Tracks, at_path-Reaches}

module _ {V : Type 0} where
  pub side_of-Holds :
      (k : Text) (ks : List Text) (kids : Kids V) (u : Node V)
      → IsStep k
      → All IsStep ks
      → Reaches k ks kids u
      → Holds k ks (side_of (join (k ∷ ks)) kids) u
  unfolding side_of new_path_observer
  side_of-Holds k ks kids u s ss r = (refl, observe-Tracks [] k ks false kids s ss, r)

  -- the value of the binding's key path, and the side after it was read
  pub value_of-Holds :
      (k : Text) (ks : List Text) (s : Side V) (u : Node V)
      → IsStep k
      → All IsStep ks
      → Holds k ks s u
      → let r = value_of (Side.path s) (Side.kids s) (Side.seen s) in
        (r.0 ≡ u) × Holds k ks (moved s (Side.kids s, r.1)) u
  unfolding value_of read_at moved
  value_of-Holds k ks s u step steps (path, t, r) =
      let (w, found, t') =
        at_prefix-Tracks (suc (length (join (k ∷ ks)))) [] k ks (Side.kids s) (Side.seen s) u
          (omega arith) step steps t r in
      rw (path, found) (at_path-Reaches k ks (Side.kids s) u r, (refl, t', r))

  pub changed-Holds :
      (k : Text) (ks ps : List Text) (key : Text) (v u u' : Node V) (s : Side V)
      → IsStep k
      → All IsStep ks
      → Holds k ks s u
      → Reaches k ks (Side.kids (changed ps key v s).0) u'
      → Holds k ks (changed ps key v s).0 u' × Told (join (k ∷ ks)) u u' (changed ps key v s).1
  unfolding changed changed_by moved
  changed-Holds k ks ps key v u u' s step steps (path, t, r) r' =
      by_result (write ps key v (Side.kids s)) refl r'
    where
      by_result :
          (x : Option (Kids V))
          → write ps key v (Side.kids s) ≡ x
          → Reaches k ks (Side.kids (changed_by ps key v s x).0) u'
          → Holds k ks (changed_by ps key v s x).0 u'
            × Told (join (k ∷ ks)) u u' (changed_by ps key v s x).1
      by_result none e r' = ((path, t, r'), inl (refl, Reaches-same k ks _ _ u u' refl r r'))
      by_result (some kids) e r' =
          let (t', told) =
            deliver-Told ps [] k ks key v u u' (Side.kids s) kids (Side.seen s) step steps t e r
              r' in
          ((path, t', r'), rw⁻¹ (spot-join k ks step steps) told)

  send-append :
      (x : Node V → Node V) (path : Text) (before out : Notices V) (s : Side V)
      → text_eq path [] ≡ false
      → All (λ n. text_eq n.0 path ≡ false) before
      → send (some x) path (before ++ out) s ≡ send (some x) path out s
  unfolding send
  send-append x path [] out s p h = refl
  send-append x path (n ∷ before) out s p (e, h) = rw (e, p) (send-append x path before out s p h)

  send-own :
      (x : Node V → Node V) (k : Text) (ks : List Text) (u' : Node V) (before : Notices V)
      (s : Side V)
      → IsStep k
      → All (λ n. text_eq n.0 (join (k ∷ ks)) ≡ false) before
      → send (some x) (join (k ∷ ks)) (before ++ (join (k ∷ ks), u') ∷ []) s ≡ assign (x u') s
  unfolding send
  send-own x k ks u' before s step h =
      let path = join (k ∷ ks) in
      send-append x path before ((path, u') ∷ []) s (text_eq-join k ks step) h
      ∙ (rw (text_eq_refl (join (k ∷ ks))) refl)

  -- the other side: as it was, or set to the new value
  pub send-Told :
      (way : Option (Node V → Node V)) (path : Text) (x : Node V → Node V) (k : Text)
      (ks : List Text) (u u' : Node V) (out : Notices V) (s : Side V)
      → IsStep k
      → way ≡ some x
      → path ≡ join (k ∷ ks)
      → Told (join (k ∷ ks)) u u' out
      → ((send way path out s ≡ s) × (u ≡ u')) ⊎ (send way path out s ≡ assign (x u') s)
  unfolding send
  send-Told way path x k ks u u' out s step w p (inl (e, same)) = inl (rw (w, e) refl, same)
  send-Told way path x k ks u u' out s step w p (inr (before, h, e)) =
      inr (rw (w, p, e) (send-own x k ks u' before s step h))
