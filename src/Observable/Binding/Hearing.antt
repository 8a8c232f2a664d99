-- ===== src/Observable/Binding/Hearing.antt =====
-- observable/path.go: what a PathObserver of one key path notifies of a change at its source.
use zugoui.Prelude.{
  Text, text_eq, text_eq_iff, text_eq_refl, List, [], ◌∷◌, ◌++◌, All, Bool, true, false, none, ◌≡◌,
  ◌⊎◌, refl, sym, ap, ◌∙◌, subst, inl, inr, Bool-cases, arith, ◌&&◌,
}
use zugoui.Prelude.Dotted.{join}
use zugoui.Observable.PathObserver.{
  Node, object, Kids, Watch, watch, Downs, Notices, joined, value_at, put, is_nil, down_at,
  without_down, put_down, observe, set_value, heard,
}
use zugoui.Observable.PathObserver.Following.{value_at-put, down_at-put_down, down_at-without_down}
use zugoui.Observable.Binding.Paths.{IsStep, spot, text_eq_ne, text_eq-join, text_eq-spot}
use zugoui.Observable.Binding.Tracking.{
  Reaches, Tracks, last_key, then_key, TracksAt, tracks_at, observe-Tracks, observe-told,
}

and_false : (b : Bool) → (b && false) ≡ false
and_false true = refl
and_false false = refl

module _ {V : Type 0} where
  -- Nothing is notified and the value is the same, or the last notification, and no other, has the
  -- key path, with the new value.
  abbrev pub Told : Text → Node V → Node V → Notices V → Type 0
  Told path v v' out =
      ((out ≡ []) × (v ≡ v'))
      ⊎ ((before : Notices V) × All (λ n. text_eq n.0 path ≡ false) before
          × (out ≡ before ++ (path, v') ∷ []))

  pub Reaches-same :
      (k : Text) (ks : List Text) (kids kids' : Kids V) (v v' : Node V)
      → value_at k kids ≡ value_at k kids'
      → Reaches k ks kids v
      → Reaches k ks kids' v'
      → v ≡ v'
  Reaches-same k [] kids kids' v v' e (a, _) (b, _) = sym a ∙ e ∙ b
  Reaches-same k (q ∷ qs) kids kids' v v' e (inner, a, r) (inner', b, r') =
      let same : inner ≡ inner' = cc in
      Reaches-same q qs inner inner' v v' (ap (λ x. value_at q x) same) r r'

  -- a key that is not on the key path, with another value
  Tracks-other :
      (pre k : Text) (ks : List Text) (kids kids' : Kids V) (w : Watch)
      → value_at k kids ≡ value_at k kids'
      → Tracks pre k ks kids w
      → Tracks pre k ks kids' w
  Tracks-other pre k _ kids kids' _ e last_key = last_key
  Tracks-other pre k _ kids kids' _ e (then_key h others) =
      then_key (λ inner e'. h inner (e ∙ e')) others

  pub value_at-other :
      (key k : Text) (v : Node V) (kids : Kids V)
      → text_eq k key ≡ false
      → value_at k kids ≡ value_at k (put key v kids)
  value_at-other key k v kids f =
      let f' : text_eq key k ≡ false = ground (arith, text_eq_iff k key, text_eq_iff key k) in
      sym (value_at-put key k v kids ∙ (rw f' refl))

  pub value_at-same : (k : Text) (v : Node V) (kids : Kids V) → value_at k (put k v kids) ≡ v
  value_at-same k v kids = value_at-put k k v kids ∙ (rw (text_eq_refl k) refl)

  -- the path observer of the source that a key holds, in its place
  pub Tracks-put_down :
      (pre k q : Text) (qs : List Text) (kids inner : Kids V) (w : Watch) (downs : Downs)
      → ((p : Text) → text_eq k p ≡ false → down_at p downs ≡ none)
      → value_at k kids ≡ object inner
      → Tracks (joined pre k) q qs inner w
      → Tracks pre k (q ∷ qs) kids (watch pre k (join (q ∷ qs)) (put_down k w downs))
  Tracks-put_down pre k q qs kids inner w downs others e t =
      then_key
        (λ inner' e'.
          let e'' : object inner ≡ object inner' = sym e ∙ e' in
          let same : inner ≡ inner' = cc in
          subst (λ x. TracksAt (joined pre k) q qs x (down_at k (put_down k w downs))) same
            (rw (down_at-put_down k k w downs, text_eq_refl k) (tracks_at t)))
        (λ p f. rw (down_at-put_down k p w downs, f) (others p f))

  -- What the path observer has become, and what it notified.
  abbrev pub Done : Text → Text → List Text → Kids V → Node V → Node V → Watch × Notices V → Type 0
  Done pre k ks kids v v' r = Tracks pre k ks kids r.0 × Told (spot pre k ks) v v' r.1

  renewed :
      (pre k q : Text) (qs : List Text) (v u u' : Node V) (kids inner : Kids V) (downs : Downs)
      → IsStep k
      → IsStep q
      → All IsStep qs
      → ((p : Text) → text_eq k p ≡ false → down_at p downs ≡ none)
      → v ≡ object inner
      → Reaches q qs inner u'
      → Done pre k
          (q ∷ qs)
          (put k v kids)
          u
          u'
          (set_value k v (put k v kids) (watch pre k (join (q ∷ qs)) downs))
  unfolding set_value is_nil
  renewed pre k q qs v u u' kids inner downs s t ts others e r =
      let here = value_at-same k (object inner) kids in
      rw (text_eq-join q qs t, value_at-same k v kids, e, and_false)
        (
          Tracks-put_down pre k q qs (put k (object inner) kids) inner
              (observe (joined pre k) (join (q ∷ qs)) true inner).0 (without_down k downs)
              (λ p f. down_at-without_down k p downs ∙ (rw f (others p f))) here
              (observe-Tracks (joined pre k) q qs true inner t ts),
          inr (
            (joined pre k, object inner) ∷ [],
            (text_eq-spot pre k q qs s t ts, tt),
            ap (λ x. (joined pre k, object inner) ∷ x)
                (observe-told (joined pre k) q qs inner u' t ts r),
          ),
        )

  heard-own :
      (pre k : Text) (ks : List Text) (v u u' : Node V) (kids : Kids V) (w : Watch)
      → IsStep k
      → All IsStep ks
      → Tracks pre k ks kids w
      → Reaches k ks (put k v kids) u'
      → Done pre k ks (put k v kids) u u' (heard k v (put k v kids) w)
  unfolding heard set_value without_down text_eq
  heard-own pre k _ v u u' kids _ s ss last_key (e, _) =
      let same : v ≡ u' = sym (value_at-same k v kids) ∙ e in
      rw (text_eq_ne k [] s.0.0, text_eq_refl k)
        (last_key, inr ([], tt, ap (λ x. (joined pre k, x) ∷ []) same))
  heard-own pre k _ v u u' kids _ s ss (then_key {q = q} {qs = qs} {downs = downs} h others)
        (inner, e, r) =
      rw (text_eq_ne k [] s.0.0, text_eq_refl k)
        (renewed pre k q qs v u u' kids inner downs s ss.0 ss.1 others
          (sym (value_at-same k v kids) ∙ e) r)

  heard-other :
      (pre k key : Text) (ks : List Text) (v : Node V) (kids kids' : Kids V) (w : Watch)
      → IsStep k
      → text_eq k key ≡ false
      → Tracks pre k ks kids w
      → heard key v kids' w ≡ (w, [])
  unfolding heard
  heard-other pre k key _ v kids kids' _ s f last_key = rw (text_eq_ne k [] s.0.0, f) refl
  heard-other pre k key _ v kids kids' _ s f (then_key h others) =
      rw (text_eq_ne k [] s.0.0, f) refl

  pub unmoved :
      (pre k : Text) (ks : List Text) (u u' : Node V) (kids kids' : Kids V) (w : Watch)
      → value_at k kids ≡ value_at k kids'
      → Tracks pre k ks kids w
      → Reaches k ks kids u
      → Reaches k ks kids' u'
      → Done pre k ks kids' u u' (w, [])
  unmoved pre k ks u u' kids kids' w e t r r' =
      (Tracks-other pre k ks kids kids' w e t, inl (refl, Reaches-same k ks kids kids' u u' e r r'))

  pub heard-Told :
      (pre k key : Text) (ks : List Text) (v u u' : Node V) (kids : Kids V) (w : Watch)
      → IsStep k
      → All IsStep ks
      → Tracks pre k ks kids w
      → Reaches k ks kids u
      → Reaches k ks (put key v kids) u'
      → Done pre k ks (put key v kids) u u' (heard key v (put key v kids) w)
  heard-Told pre k key ks v u u' kids w s ss t r r' = elim (Bool-cases (text_eq k key)) [
    | inl e ↦
        let same = (text_eq_iff k key).0 e in
        subst
          (λ x.
            Reaches k ks (put x v kids) u'
            → Done pre k ks (put x v kids) u u' (heard x v (put x v kids) w))
          same (λ r'. heard-own pre k ks v u u' kids w s ss t r') r'
    | inr f ↦
        rw (heard-other pre k key ks v kids (put key v kids) w s f t)
          (unmoved pre k ks u u' kids (put key v kids) w (value_at-other key k v kids f) t r r')
  ]
