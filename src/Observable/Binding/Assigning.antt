-- ===== src/Observable/Binding/Assigning.antt =====
-- observable/path.go: SetValue and Value of a PathObserver at the one key path it is made for.
use zugoui.Prelude.{
  ℕ, zero, suc, ◌<◌, Text, text_eq, List, [], ◌∷◌, length, All, Option, none, some, ◌≡◌, refl,
  arith,
}
use zugoui.Prelude.Dotted.{join}
use zugoui.Observable.KeyPath.Walk.{cut_last, cut_next}
use zugoui.Observable.PathObserver.{
  joined, Node, object, Kids, Watch, watch, put, down_at, put_down, write, put_in, deliver,
}
use zugoui.Observable.PathObserver.Access.{
  opened, behind, descend, at_prefix, at_path, written, write_at, set_path,
}
use zugoui.Observable.Binding.{Side, assign, moved}
use zugoui.Observable.Binding.Paths.{IsStep, text_eq-join, length-join}
use zugoui.Observable.Binding.Tracking.{
  IsLeaf, Reaches, Tracks, last_key, then_key, TracksAt, tracks_at,
}
use zugoui.Observable.Binding.Hearing.{value_at-same, Tracks-put_down}
use zugoui.Observable.Binding.Delivery.{deliver-Told}

-- the keys that lead to the source of the last key, and the last key
abbrev pub leading : Text → List Text → List Text
leading k [] = []
leading k (q ∷ qs) = k ∷ leading q qs

abbrev pub last : Text → List Text → Text
last k [] = k
last k (q ∷ qs) = last q qs

module _ {V : Type 0} where
  there :
      (pre k : Text) (ks : List Text) (kids : Kids V) (d : Option Watch)
      → TracksAt pre k ks kids d
      → (w : Watch) × (d ≡ some w) × Tracks pre k ks kids w
  there pre k ks kids none t = elim t [ ]
  there pre k ks kids (some w) (tracks_at t) = (w, refl, t)

  -- the path observer is found with its key path, and stays the one it is
  pub at_prefix-Tracks :
      (fuel : ℕ) (pre k : Text) (ks : List Text) (kids : Kids V) (w : Watch) (u : Node V)
      → length (join (k ∷ ks)) < fuel
      → IsStep k
      → All IsStep ks
      → Tracks pre k ks kids w
      → Reaches k ks kids u
      → (w' : Watch) × (at_prefix fuel (join (k ∷ ks)) kids w
          ≡ (some (leading k ks, last k ks), w'))
        × Tracks pre k ks kids w'
  unfolding at_prefix opened descend behind text_eq
  at_prefix-Tracks zero pre k ks kids w u h s ss t r = absurd (omega arith)
  at_prefix-Tracks (suc fuel) pre k _ kids _ u h s ss last_key r =
      (_, rw (cut_last k s.0.1) refl, last_key)
  at_prefix-Tracks (suc fuel) pre k _ kids _ u h s ss
        (then_key {q = q} {qs = qs} {downs = downs} g others) (inner, e, r) =
      let (t, ts) = ss in
      let (w, at, tr) = there (joined pre k) q qs inner (down_at k downs) (g inner e) in
      let next = cut_next k q qs s.0.1 in
      let some_rest = text_eq-join q qs t in
      let shorter : length (join (q ∷ qs)) < length (join (k ∷ q ∷ qs)) = length-join k q qs in
      let (w', found, tr') =
        at_prefix-Tracks fuel (joined pre k) q qs inner w u (omega arith) t ts tr r in
      (
        watch pre k (join (q ∷ qs)) (put_down k w' downs),
        rw (next, some_rest, e, at, found) refl,
        Tracks-put_down pre k q qs kids inner w' downs others e tr',
      )

  write-Reaches :
      (k : Text) (ks : List Text) (kids : Kids V) (u v : Node V)
      → Reaches k ks kids u
      → IsLeaf v
      → (kids' : Kids V) × (write (leading k ks) (last k ks) v kids ≡ some kids')
        × Reaches k ks kids' v
  unfolding write put_in
  write-Reaches k [] kids u v r l = (put k v kids, refl, (value_at-same k v kids, l))
  write-Reaches k (q ∷ qs) kids u v (inner, e, r) l =
      let (inner', e', r') = write-Reaches q qs inner u v r l in
      (
        put k (object inner') kids,
        rw (e, put_in, e') refl,
        (inner', value_at-same k (object inner') kids, r'),
      )

  pub at_path-Reaches :
      (k : Text) (ks : List Text) (kids : Kids V) (u : Node V)
      → Reaches k ks kids u
      → at_path (leading k ks) (last k ks) kids ≡ u
  unfolding at_path
  at_path-Reaches k [] kids u (e, _) = e
  at_path-Reaches k (q ∷ qs) kids u (inner, e, r) = rw (at_path, e) (at_path-Reaches q qs inner u r)

  -- The side's path observer tracks its key path, which leads to the value.
  abbrev pub Holds : Text → List Text → Side V → Node V → Type 0
  Holds k ks s u =
      (Side.path s ≡ join (k ∷ ks))
      × Tracks [] k ks (Side.kids s) (Side.seen s)
      × Reaches k ks (Side.kids s) u

  assign-found :
      (s : Side V) (v : Node V) (path : Text) (ps : List Text) (key : Text) (kids' : Kids V)
      (w : Watch)
      → Side.path s ≡ path
      → at_prefix (suc (length path)) path (Side.kids s) (Side.seen s) ≡ (some (ps, key), w)
      → write ps key v (Side.kids s) ≡ some kids'
      → assign v s ≡ moved s (kids', (deliver ps key v kids' w).0)
  unfolding assign set_path write_at written
  assign-found s v path ps key kids' w same found wrote = rw (same, found, wrote) refl

  -- SetValue of the binding's key path keeps that, with the new value.
  pub assign-Holds :
      (k : Text) (ks : List Text) (s : Side V) (u v : Node V)
      → IsStep k
      → All IsStep ks
      → Holds k ks s u
      → IsLeaf v
      → Holds k ks (assign v s) v
  unfolding assign set_path
  assign-Holds k ks s u v step steps (path, t, r) l =
      let (w, found, t') =
        at_prefix-Tracks (suc (length (join (k ∷ ks)))) [] k ks (Side.kids s) (Side.seen s) u
          (omega arith) step steps t r in
      let (kids', wrote, r') = write-Reaches k ks (Side.kids s) u v r l in
      let (t'', _) =
        deliver-Told (leading k ks) [] k ks (last k ks) v u v (Side.kids s) kids' w step steps t'
          wrote r r' in
      let done =
        assign-found s v (join (k ∷ ks)) (leading k ks) (last k ks) kids' w path found wrote in
      rw (done, moved) (path, t'', r')
