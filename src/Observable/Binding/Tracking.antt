-- ===== src/Observable/Binding/Tracking.antt =====
-- observable/path.go: a PathObserver of one key path has a path observer at every source on it.
use zugoui.Prelude.{
  Text, text_eq, text_eq_iff, text_eq_refl, List, [], ◌∷◌, All, Bool, true, false, Option, none,
  some, ◌≡◌, ◌≢◌, refl, inl, inr, Bool-cases,
}
use zugoui.Prelude.Dotted.{join}
use zugoui.Observable.KeyPath.Walk.{cut_last, cut_next}
use zugoui.Observable.Binding.Paths.{IsStep, text_eq_ne, text_eq-join, spot}
use zugoui.Observable.PathObserver.{
  Node, plain, nil, object, Kids, no_kids, kid, Watch, watch, Downs, no_downs, joined, star,
  value_at, told_if, down_at, key_and_suffix, built, kept_at, observe_one, observe_at, observe,
}

-- The value is no source.
abbrev pub IsLeaf : {V : Type 0} → Node V → Type 0
IsLeaf (object kids) = ⊥
IsLeaf (plain v) = Unit
IsLeaf nil = Unit

-- The keys lead through sources to a value that is no source.
abbrev pub Reaches : {V : Type 0} → Text → List Text → Kids V → Node V → Type 0
Reaches k [] kids v = (value_at k kids ≡ v) × IsLeaf v
Reaches {V = V} k (q ∷ qs) kids v =
    (inner : Kids V) × (value_at k kids ≡ object inner) × Reaches q qs inner v

-- The path observer is that of a key path, and so is its only path observer, at the source that the
-- key holds.
mutual
  pub data Tracks {V : Type 0} : Text → Text → List Text → Kids V → Watch → Type 0 where
    last_key : {pre k : Text} {kids : Kids V} → Tracks pre k [] kids (watch pre k [] no_downs)
    then_key :
        {pre k q : Text} {qs : List Text} {kids : Kids V} {downs : Downs}
        → ((inner : Kids V)
            → value_at k kids ≡ object inner
            → TracksAt (joined pre k) q qs inner (down_at k downs))
        → ((p : Text) → text_eq k p ≡ false → down_at p downs ≡ none)
        → Tracks pre k (q ∷ qs) kids (watch pre k (join (q ∷ qs)) downs)

  pub data TracksAt {V : Type 0} : Text → Text → List Text → Kids V → Option Watch → Type 0 where
    tracks_at :
        {pre k : Text} {ks : List Text} {kids : Kids V} {w : Watch}
        → Tracks pre k ks kids w
        → TracksAt pre k ks kids (some w)

key_and_suffix-last : (k : Text) → IsStep k → key_and_suffix (join (k ∷ [])) ≡ (k, [])
unfolding key_and_suffix
key_and_suffix-last k ((_, dots), s) = rw (cut_last k dots) (rw (text_eq_ne k star s) refl)

key_and_suffix-next :
    (k q : Text) (qs : List Text)
    → IsStep k
    → key_and_suffix (join (k ∷ q ∷ qs)) ≡ (k, join (q ∷ qs))
unfolding key_and_suffix
key_and_suffix-next k q qs ((_, dots), s) =
    rw (cut_next k q qs dots) (rw (text_eq_ne k star s) refl)

down_at-kept_at :
    (k p : Text) (w : Option Watch) → text_eq k p ≡ false → down_at p (kept_at k w no_downs) ≡ none
unfolding down_at kept_at
down_at-kept_at k p none f = refl
down_at-kept_at k p (some w) f = rw f refl

module _ {V : Type 0} where
  observe_one-value_at :
      (pre k suffix : Text) (notify : Bool) (kids : Kids V)
      → let r = observe_at pre k suffix notify (value_at k kids) in
        observe_one pre k suffix notify kids ≡ (kept_at k r.0 no_downs, r.1)
  unfolding observe_one kept_at value_at
  observe_one-value_at pre k suffix notify no_kids = refl
  observe_one-value_at pre k suffix notify (kid j n kids) = elim (Bool-cases (text_eq j k)) [
    | inl t ↦ rw (t, (text_eq_iff j k).0 t) refl
    | inr f ↦ rw (f) (observe_one-value_at pre k suffix notify kids)
  ]

  observe-step :
      (pre key_path k suffix : Text) (notify : Bool) (kids : Kids V)
      → k ≢ []
      → key_and_suffix key_path ≡ (k, suffix)
      → let r = observe_at pre k suffix notify (value_at k kids) in
        observe pre key_path notify kids ≡ (watch pre k suffix (kept_at k r.0 no_downs), r.1)
  unfolding observe built
  observe-step pre key_path k suffix notify kids n e =
      rw (e, text_eq_ne k [] n, observe_one-value_at pre k suffix notify kids) refl

  observe_at-object :
      (pre k q : Text) (qs : List Text) (notify : Bool) (inner : Kids V)
      → IsStep q
      → let r = observe (joined pre k) (join (q ∷ qs)) notify inner in
        observe_at pre k (join (q ∷ qs)) notify (object inner) ≡ (some r.0, r.1)
  unfolding observe_at observe built
  observe_at-object pre k q qs notify inner s = rw (text_eq-join q qs s) refl

  observe_at-last :
      (pre k : Text) (notify : Bool) (n : Node V) → (observe_at pre k [] notify n).0 ≡ none
  unfolding observe_at text_eq
  observe_at-last pre k notify (object inner) = refl
  observe_at-last pre k notify (plain v) = refl
  observe_at-last pre k notify nil = refl

  observe_at-leaf :
      (pre k suffix : Text) (n : Node V)
      → IsLeaf n
      → (observe_at pre k suffix true n).1 ≡ (joined pre k, n) ∷ []
  unfolding observe_at told_if
  observe_at-leaf pre k suffix (plain v) l = refl
  observe_at-leaf pre k suffix nil l = refl
  observe_at-leaf pre k suffix (object inner) l = elim l [ ]

  -- a path observer of a key path, when it is made
  pub observe-Tracks :
      (pre k : Text) (ks : List Text) (notify : Bool) (kids : Kids V)
      → IsStep k
      → All IsStep ks
      → Tracks pre k ks kids (observe pre (join (k ∷ ks)) notify kids).0
  unfolding kept_at down_at
  observe-Tracks pre k [] notify kids s _ =
      rw (observe-step pre (join (k ∷ [])) k [] notify kids s.0.0 (key_and_suffix-last k s))
        (rw (observe_at-last pre k notify (value_at k kids)) last_key)
  observe-Tracks pre k (q ∷ qs) notify kids s (t, ts) =
      rw
        (observe-step pre (join (k ∷ q ∷ qs)) k (join (q ∷ qs)) notify kids s.0.0
          (key_and_suffix-next k q qs s))
        (then_key
          (λ inner e.
            rw (e, observe_at-object pre k q qs notify inner t, text_eq_refl k)
              (tracks_at (observe-Tracks (joined pre k) q qs notify inner t ts)))
          (λ p f.
            down_at-kept_at k p (observe_at pre k (join (q ∷ qs)) notify (value_at k kids)).0 f))

  -- and what it notifies then, if it is told to
  pub observe-told :
      (pre k : Text) (ks : List Text) (kids : Kids V) (v : Node V)
      → IsStep k
      → All IsStep ks
      → Reaches k ks kids v
      → (observe pre (join (k ∷ ks)) true kids).1 ≡ (spot pre k ks, v) ∷ []
  observe-told pre k [] kids v s _ (e, l) =
      rw (observe-step pre (join (k ∷ [])) k [] true kids s.0.0 (key_and_suffix-last k s), e)
        (observe_at-leaf pre k [] v l)
  observe-told pre k (q ∷ qs) kids v s (t, ts) (inner, e, r) =
      rw
        (
          observe-step pre (join (k ∷ q ∷ qs)) k (join (q ∷ qs)) true kids s.0.0
              (key_and_suffix-next k q qs s),
          e,
          observe_at-object pre k q qs true inner t,
        )
        (observe-told (joined pre k) q qs inner v t ts r)
