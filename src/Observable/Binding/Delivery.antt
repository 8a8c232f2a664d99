-- ===== src/Observable/Binding/Delivery.antt =====
-- observable/path.go: what a PathObserver of one key path notifies of a change, however deep.
use zugoui.Prelude.{
  Text, text_eq, text_eq_iff, List, [], ◌∷◌, All, false, Option, none, some, ◌≡◌, refl, sym, ◌∙◌,
  subst, inl, inr, Bool-cases, Option-cases,
}
use zugoui.Prelude.Dotted.{join}
use zugoui.Observable.PathObserver.{
  Node, plain, nil, object, Kids, Watch, watch, Downs, Notices, joined, value_at, put, down_at,
  heard, write, put_in, passed, deliver,
}
use zugoui.Observable.Binding.Paths.{IsStep}
use zugoui.Observable.Binding.Tracking.{
  IsLeaf, Reaches, Tracks, last_key, then_key, TracksAt, tracks_at,
}
use zugoui.Observable.Binding.Hearing.{
  Done, value_at-other, value_at-same, Tracks-put_down, unmoved, heard-Told,
}

module _ {V : Type 0} where
  -- a change below a key: the source that the key held, and what it became
  write-below :
      (ps : List Text) (p key : Text) (v : Node V) (kids kids' : Kids V)
      → write (p ∷ ps) key v kids ≡ some kids'
      → (inner : Kids V) × (inner' : Kids V) × (value_at p kids ≡ object inner)
        × (write ps key v inner ≡ some inner')
        × (put p (object inner') kids ≡ kids')
  unfolding write put_in
  write-below ps p key v kids kids' e = by_value (value_at p kids) refl e
    where
      by_value :
          (n : Node V)
          → value_at p kids ≡ n
          → put_in p (λ inner. write ps key v inner) n kids ≡ some kids'
          → (inner : Kids V) × (inner' : Kids V) × (value_at p kids ≡ object inner)
            × (write ps key v inner ≡ some inner')
            × (put p (object inner') kids ≡ kids')
      by_value (plain x) at e = absurd cc
      by_value nil at e = absurd cc
      by_value (object inner) at e = elim (Option-cases (write ps key v inner)) [
        | inl w ↦ let e' = rw (put_in, w) at e in absurd cc
        | inr (inner', w) ↦ let e' = rw (put_in, w) at e in (inner, inner', at, w, cc)
      ]

  -- the path observer of the key, told of a change below it
  passed-own :
      (ps : List Text) (pre k q : Text) (qs : List Text) (key : Text) (v u u' : Node V)
      (kids inner inner' : Kids V) (downs : Downs)
      → ((w : Watch)
          → Tracks (joined pre k) q qs inner w
          → Done (joined pre k) q qs inner' u u' (deliver ps key v inner' w))
      → ((p : Text) → text_eq k p ≡ false → down_at p downs ≡ none)
      → TracksAt (joined pre k) q qs inner (down_at k downs)
      → Done pre k (q ∷ qs) (put k (object inner') kids) u u' (
          passed k
            (λ inner w. deliver ps key v inner w)
            (value_at k (put k (object inner') kids))
            (down_at k downs)
            (watch pre k (join (q ∷ qs)) downs))
  unfolding passed
  passed-own ps pre k q qs key v u u' kids inner inner' downs ih others t =
      by_watch (down_at k downs) t
    where
      by_watch :
          (d : Option Watch)
          → TracksAt (joined pre k) q qs inner d
          → Done pre k (q ∷ qs) (put k (object inner') kids) u u' (
              passed k
                (λ inner w. deliver ps key v inner w)
                (value_at k (put k (object inner') kids))
                d
                (watch pre k (join (q ∷ qs)) downs))
      by_watch none t = elim t [ ]
      by_watch (some w) (tracks_at t) =
          let held = value_at-same k (object inner') kids in
          let (t', told) = ih w t in
          rw held (
            Tracks-put_down pre k q qs (put k (object inner') kids) inner'
                (deliver ps key v inner' w).0 downs others held t',
            told,
          )

  passed-none :
      (p : Text) (tell : Kids V → Watch → Watch × Notices V) (n : Node V) (w : Watch)
      → passed p tell n none w ≡ (w, [])
  unfolding passed
  passed-none p tell (object inner) w = refl
  passed-none p tell (plain x) w = refl
  passed-none p tell nil w = refl

  deliver-other :
      (ps : List Text) (pre k p : Text) (ks : List Text) (key : Text) (v : Node V)
      (kids kids' : Kids V) (w : Watch)
      → text_eq k p ≡ false
      → Tracks pre k ks kids w
      → deliver (p ∷ ps) key v kids' w ≡ (w, [])
  unfolding deliver down_at
  deliver-other ps pre k p _ key v kids kids' _ f last_key =
      passed-none p (λ inner w. deliver ps key v inner w) (value_at p kids') _
  deliver-other ps pre k p _ key v kids kids' _ f (then_key h others) =
      rw (others p f) (passed-none p (λ inner w. deliver ps key v inner w) (value_at p kids') _)

  -- a change below the first key of the key path, from the same for the source that the key holds
  deliver-own :
      (ps : List Text) (pre k : Text) (ks : List Text) (key : Text) (v u u' : Node V)
      (kids inner inner' : Kids V) (w : Watch)
      → value_at k kids ≡ object inner
      → ((q : Text) (qs : List Text) (w : Watch)
          → ks ≡ q ∷ qs
          → Tracks (joined pre k) q qs inner w
          → Reaches q qs inner u
          → Reaches q qs inner' u'
          → Done (joined pre k) q qs inner' u u' (deliver ps key v inner' w))
      → Tracks pre k ks kids w
      → Reaches k ks kids u
      → Reaches k ks (put k (object inner') kids) u'
      → Done pre k ks
          (put k (object inner') kids)
          u
          u'
          (deliver (k ∷ ps) key v (put k (object inner') kids) w)
  unfolding deliver
  deliver-own ps pre k _ key v u u' kids inner inner' _ e ih last_key (a, l) (b, l') =
      absurd (subst (λ x. IsLeaf x) (sym a ∙ e) l)
  deliver-own ps pre k _ key v u u' kids inner inner' _ e ih
        (then_key {q = q} {qs = qs} {downs = downs} h others) (inner0, a, r) (inner1, b, r') =
      let a' : object inner0 ≡ object inner = sym a ∙ e in
      let same : inner0 ≡ inner = cc in
      let b' : object inner1 ≡ object inner' = sym b ∙ value_at-same k (object inner') kids in
      let same' : inner1 ≡ inner' = cc in
      passed-own ps pre k q qs key v u u' kids inner inner' downs
        (λ w t.
          ih q qs w refl t (subst (λ x. Reaches q qs x u) same r)
            (subst (λ x. Reaches q qs x u') same' r'))
        others (h inner e)

  -- a change of a key, however deep, while the key path leads to a value before it and after it
  pub deliver-Told :
      (ps : List Text) (pre k : Text) (ks : List Text) (key : Text) (v u u' : Node V)
      (kids kids' : Kids V) (w : Watch)
      → IsStep k
      → All IsStep ks
      → Tracks pre k ks kids w
      → write ps key v kids ≡ some kids'
      → Reaches k ks kids u
      → Reaches k ks kids' u'
      → Done pre k ks kids' u u' (deliver ps key v kids' w)
  unfolding write deliver
  deliver-Told [] pre k ks key v u u' kids kids' w s ss t e r r' =
      let same : put key v kids ≡ kids' = cc in
      subst (λ x. Reaches k ks x u' → Done pre k ks x u u' (heard key v x w)) same
        (λ r'. heard-Told pre k key ks v u u' kids w s ss t r r') r'
  deliver-Told (p ∷ ps) pre k ks key v u u' kids kids' w s ss t e r r' =
      let (inner, inner', at, below, same) = write-below ps p key v kids kids' e in
      subst (λ x. Reaches k ks x u' → Done pre k ks x u u' (deliver (p ∷ ps) key v x w)) same
        (λ r'. elim (Bool-cases (text_eq k p)) [
          | inr f ↦ rw (deliver-other ps pre k p ks key v kids (put p (object inner') kids) w f t) (
              unmoved pre k ks u u' kids (put p (object inner') kids) w
                (value_at-other p k (object inner') kids f) t r r')
          | inl same_key ↦
              subst
                (λ x.
                  value_at x kids ≡ object inner
                  → Reaches k ks (put x (object inner') kids) u'
                  → Done pre k ks (put x (object inner') kids) u u'
                      (deliver (x ∷ ps) key v (put x (object inner') kids) w))
                ((text_eq_iff k p).0 same_key)
                (λ at r'.
                  deliver-own ps pre k ks key v u u' kids inner inner' w at
                    (λ q qs w is_ks t r r'.
                      let (step, steps) = subst (λ x. All IsStep x) is_ks ss in
                      deliver-Told ps (joined pre k) q qs key v u u' inner inner' w step steps t
                        below r r')
                    t r r')
                at r'
        ])
        r'
