-- ===== src/Observable/Binding/Paths.antt =====
-- observable/path.go: the key paths of a PathObserver of one key path.
use zugoui.Prelude.{
  length, length-append, ◌<◌, Text, text_eq, text_eq_iff, List, [], ◌∷◌, ◌++◌, All, false, ◌≡◌, ◌≢◌,
  refl, ap, ◌∙◌, inl, inr, Bool-cases, append_assoc, append-nil, sym, arith,
}
use zugoui.Prelude.Dotted.{dot, join, separated}
use zugoui.Observable.KeyPath.{join_key_path}
use zugoui.Observable.KeyPath.Walk.{IsKey}
use zugoui.Observable.PathObserver.{joined, star}

-- A key that is no wildcard.
abbrev pub IsStep : Text → Type 0
IsStep k = IsKey k × (k ≢ star)

pub text_eq_ne : (s t : Text) → s ≢ t → text_eq s t ≡ false
text_eq_ne s t n = elim (Bool-cases (text_eq s t)) [
  | inl e ↦ absurd (n ((text_eq_iff s t).0 e))
  | inr e ↦ e
]

pub text_eq-join : (q : Text) (qs : List Text) → IsStep q → text_eq (join (q ∷ qs)) [] ≡ false
unfolding text_eq join
text_eq-join [] qs ((n, _), _) = absurd (n refl)
text_eq-join (c ∷ q) qs s = refl

-- the key path of the last key, behind a prefix
abbrev pub spot : Text → Text → List Text → Text
spot pre k [] = joined pre k
spot pre k (q ∷ qs) = spot (joined pre k) q qs

text_eq-append : (s t : Text) → text_eq s (s ++ dot ∷ t) ≡ false
unfolding text_eq
text_eq-append [] t = refl
text_eq-append (c ∷ s) t = ground (arith, text_eq-append s t)

joined-empty : (k : Text) → k ≢ [] → joined [] k ≡ k
unfolding join_key_path text_eq
joined-empty [] n = absurd (n refl)
joined-empty (c ∷ k) n = refl

joined-append : (pre k : Text) → pre ≢ [] → k ≢ [] → joined pre k ≡ pre ++ dot ∷ k
unfolding join_key_path text_eq
joined-append [] k n n' = absurd (n refl)
joined-append (c ∷ pre) [] n n' = absurd (n' refl)
joined-append (c ∷ pre) (d ∷ k) n n' =
    ap (λ (t : Text). c ∷ t) (append_assoc pre (dot ∷ []) (d ∷ k))

joined_ne : (pre k : Text) → k ≢ [] → joined pre k ≢ []
unfolding join_key_path text_eq
joined_ne [] [] n e = n refl
joined_ne [] (d ∷ k) n e = cc
joined_ne (c ∷ pre) [] n e = cc
joined_ne (c ∷ pre) (d ∷ k) n e = cc

spot-append :
    (pre k : Text) (ks : List Text)
    → pre ≢ []
    → IsStep k
    → All IsStep ks
    → spot pre k ks ≡ pre ++ dot ∷ join (k ∷ ks)
unfolding join separated
spot-append pre k [] n s _ = joined-append pre k n s.0.0 ∙ (rw (append-nil k) refl)
spot-append pre k (q ∷ qs) n s (t, ts) =
    spot-append (joined pre k) q qs (joined_ne pre k s.0.0) t ts
    ∙ (rw (joined-append pre k n s.0.0) (append_assoc pre (dot ∷ k) (dot ∷ q ++ separated qs)))

-- The key path of the last key is the path that the keys join to.
pub spot-join :
    (k : Text) (ks : List Text) → IsStep k → All IsStep ks → spot [] k ks ≡ join (k ∷ ks)
unfolding join separated
spot-join k [] s _ = joined-empty k s.0.0 ∙ sym (append-nil k)
spot-join k (q ∷ qs) s (t, ts) = rw (joined-empty k s.0.0) (spot-append k q qs s.0.0 t ts)

pub text_eq-spot :
    (pre k q : Text) (qs : List Text)
    → IsStep k
    → IsStep q
    → All IsStep qs
    → text_eq (joined pre k) (spot (joined pre k) q qs) ≡ false
text_eq-spot pre k q qs s t ts =
    let n : joined pre k ≢ [] = joined_ne pre k s.0.0 in
    rw (spot-append (joined pre k) q qs n t ts) (text_eq-append (joined pre k) (join (q ∷ qs)))

pub length-join :
    (k q : Text) (qs : List Text) → length (join (q ∷ qs)) < length (join (k ∷ q ∷ qs))
unfolding join separated
length-join k q qs = omega (arith, length-append k (dot ∷ q ++ separated qs))
