-- ===== src/Observable/KeyPath/Walk.antt =====
-- observable/path.go: SetKeyPath, GetKeyPath and PathSetter against a walk along the list of keys.
use zugoui.Prelude.{
  ℕ, zero, suc, ◌<◌, ◌≤◌, Text, text_eq, text_eq_iff, List, [], ◌∷◌, ◌++◌, length, Bool, true,
  false, Option, some, if◌then◌else◌, All, ◌≡◌, ◌≢◌, refl, ap, arith, inl, inr, Bool-cases,
  append-nil, text_eq_refl, length-append,
}
use zugoui.Prelude.Dotted.{LacksDot, cut, join, separated, cut-LacksDot, cut-append}
use zugoui.Observable.KeyPath.{
  Any, source, plain, nil, Sources, Outcome, done, immutable, not_source, out_of_fuel, set_loop,
  set_key_path, setter_loop, setter_set_value,
}

pub cut_shorter : (s : Text) → text_eq (cut s).1 [] ≡ false → length (cut s).1 < length s
unfolding cut text_eq
cut_shorter [] h = cc
cut_shorter (c ∷ s) h = ground (arith, cut_shorter s)

pub cut_last : (k : Text) → LacksDot k → cut (join (k ∷ [])) ≡ (k, [], false)
unfolding join separated
cut_last k h = rw (append-nil k) (cut-LacksDot k h)

pub cut_next :
    (k j : Text) (js : List Text) → LacksDot k → cut (join (k ∷ j ∷ js)) ≡ (k, join (j ∷ js), true)
unfolding join separated
cut_next k j js h = cut-append k (j ++ separated js) h

length-le-separated : (ks : List Text) → length ks ≤ length (separated ks)
unfolding separated
length-le-separated [] = omega arith
length-le-separated (k ∷ ks) = omega (arith, length-le-separated ks, length-append k (separated ks))

length-le-join : (k : Text) (ks : List Text) → length ks ≤ length (join (k ∷ ks))
unfolding join
length-le-join k ks = omega (arith, length-le-separated ks, length-append k (separated ks))

abbrev pub IsKey : Text → Type 0
IsKey k = (k ≢ []) × LacksDot k

unfoldable pub is_done : Outcome → Bool
is_done done = true
is_done _ = false

module _ (o : Sources) where
  open o use {State, Object, Datum, mutable, value, set_value}

  -- What SetKeyPath and PathSetter.SetValue do alike: the state that they leave, and the end of
  -- their calls within the fuel.
  Agree : Option State → Outcome × State → Type 0
  Agree m r = (m ≡ some r.1) × (r.0 ≢ out_of_fuel)

  Agree-descend :
      (fuel : ℕ) (kp suffix : Text) (v : Any Object Datum)
      → ((s : Object) (st : State)
          → Agree
              (setter_loop o fuel s suffix (λ m key. set_value m key v) st)
              (set_loop o fuel s suffix v st))
      → (found : Any Object Datum) (st : State)
      → Agree
          (elim found [
            | source s ↦ setter_loop o fuel s suffix (λ m key. set_value m key v) st
            | plain _ ↦ some st
            | nil ↦ some st
          ])
          (elim found [
            | source s ↦ set_loop o fuel s suffix v st
            | plain _ ↦ (not_source kp, st)
            | nil ↦ (not_source kp, st)
          ])
  Agree-descend fuel kp suffix v ih (source s) st = ih s st
  Agree-descend fuel kp suffix v ih (plain _) st = unfold Agree in (refl, λ e. cc)
  Agree-descend fuel kp suffix v ih nil st = unfold Agree in (refl, λ e. cc)

  Agree-leaf :
      (s : Object) (key kp : Text) (v : Any Object Datum) (st : State)
      → Agree
          (some (if mutable s then set_value s key v st else st))
          (if mutable s then (done, set_value s key v st) else (immutable kp, st))
  unfolding Agree
  Agree-leaf s key kp v st = elim (Bool-cases (mutable s)) [
    | inl t ↦ rw t (refl, λ e. cc)
    | inr f ↦ rw f (refl, λ e. cc)
  ]

  setter_loop-set_loop :
      (fuel : ℕ) (s : Object) (kp : Text) (v : Any Object Datum) (st : State)
      → length kp < fuel
      → Agree (setter_loop o fuel s kp (λ m key. set_value m key v) st) (set_loop o fuel s kp v st)
  unfolding setter_loop set_loop
  setter_loop-set_loop zero s kp v st h = absurd (omega arith)
  setter_loop-set_loop (suc fuel) s kp v st h = elim (Bool-cases (text_eq (cut kp).1 [])) [
    | inl t ↦ rw t (Agree-leaf s (cut kp).0 kp v st)
    | inr f ↦ rw f (
        Agree-descend fuel kp (cut kp).1 v
          (λ s' st'.
            setter_loop-set_loop fuel s' (cut kp).1 v st' (omega (arith, cut_shorter kp f)))
          (value s (cut kp).0 st).0 (value s (cut kp).0 st).1)
  ]

  -- PathSetter.SetValue and SetKeyPath leave the same state for every key path, whatever SetKeyPath
  -- reports, and both come to an end.
  pub setter_set_value-set_key_path :
      (s : Object) (kp : Text) (v : Any Object Datum) (st : State)
      → (setter_set_value o s kp v st ≡ some (set_key_path o s kp v st).1)
        × ((set_key_path o s kp v st).0 ≢ out_of_fuel)
  unfolding setter_set_value set_key_path Agree
  setter_set_value-set_key_path s kp v st =
      setter_loop-set_loop (suc (length kp)) s kp v st (omega arith)

  -- The walk along a list of keys: all but the last lead to a source.
  unfoldable pub set_along : Object → Text → List Text → Any Object Datum → State → Bool × State
  set_along s key [] v st = if mutable s then (true, set_value s key v st) else (false, st)
  set_along s key (k ∷ ks) v st =
      let (found, st') = value s key st in
      elim found [
        | source s' ↦ set_along s' k ks v st'
        | plain _ ↦ (false, st')
        | nil ↦ (false, st')
      ]

  Follows : Outcome × State → Bool × State → Type 0
  Follows r w = (is_done r.0 ≡ w.0) × (r.1 ≡ w.1)

  -- one call of SetKeyPath, from what strings.Cut returns
  round : ℕ → Object → Text → Any Object Datum → State → Text × Text × Bool → Outcome × State
  round fuel s kp v st (key, suffix, _) =
      if text_eq suffix []
      then (if mutable s then (done, set_value s key v st) else (immutable kp, st))
      else elim (value s key st).0 [
        | source s' ↦ set_loop o fuel s' suffix v (value s key st).1
        | plain _ ↦ (not_source kp, (value s key st).1)
        | nil ↦ (not_source kp, (value s key st).1)
      ]

  set_loop-round :
      (fuel : ℕ) (s : Object) (kp : Text) (v : Any Object Datum) (st : State)
      {c : Text × Text × Bool}
      → cut kp ≡ c
      → set_loop o (suc fuel) s kp v st ≡ round fuel s kp v st c
  unfolding set_loop round
  set_loop-round fuel s kp v st e = ap (round fuel s kp v st) e

  text_eq-nil : (k : Text) → k ≢ [] → text_eq k [] ≡ false
  text_eq-nil k h = ground (arith, text_eq_iff k [])

  join-ne-nil : (j : Text) (js : List Text) → j ≢ [] → join (j ∷ js) ≢ []
  unfolding join
  join-ne-nil [] js h e = h refl
  join-ne-nil (c ∷ j) js h e = cc

  Follows-descend :
      (fuel : ℕ) (kp suffix j : Text) (js : List Text) (v : Any Object Datum)
      → ((s : Object) (st : State)
          → Follows (set_loop o fuel s suffix v st) (set_along s j js v st))
      → (found : Any Object Datum) (st : State)
      → Follows
          (elim found [
            | source s ↦ set_loop o fuel s suffix v st
            | plain _ ↦ (not_source kp, st)
            | nil ↦ (not_source kp, st)
          ])
          (elim found [
            | source s ↦ set_along s j js v st
            | plain _ ↦ (false, st)
            | nil ↦ (false, st)
          ])
  unfolding Follows is_done
  Follows-descend fuel kp suffix j js v ih (source s) st = ih s st
  Follows-descend fuel kp suffix j js v ih (plain _) st = (refl, refl)
  Follows-descend fuel kp suffix j js v ih nil st = (refl, refl)

  set_loop-set_along :
      (fuel : ℕ) (s : Object) (k : Text) (ks : List Text) (v : Any Object Datum) (st : State)
      → All IsKey (k ∷ ks)
      → length ks < fuel
      → Follows (set_loop o fuel s (join (k ∷ ks)) v st) (set_along s k ks v st)
  unfolding round set_along
  set_loop-set_along zero s k ks v st hs h = absurd (omega arith)
  set_loop-set_along (suc fuel) s k [] v st (hk, _) h =
      rw (set_loop-round fuel s (join (k ∷ [])) v st (cut_last k hk.1), text_eq_refl)
        (elim (Bool-cases (mutable s)) [
          | inl t ↦ rw t (unfold Follows is_done in (refl, refl))
          | inr f ↦ rw f (unfold Follows is_done in (refl, refl))
        ])
  set_loop-set_along (suc fuel) s k (j ∷ js) v st (hk, (hj, hjs)) h =
      rw
        (
          set_loop-round fuel s (join (k ∷ j ∷ js)) v st (cut_next k j js hk.1),
          text_eq-nil (join (j ∷ js)) (join-ne-nil j js hj.0),
        )
        (Follows-descend fuel (join (k ∷ j ∷ js)) (join (j ∷ js)) j js v
          (λ s' st'. set_loop-set_along fuel s' j js v st' (hj, hjs) (omega arith)) (value s k st).0
          (value s k st).1)

  -- SetKeyPath of the key path that joins keys, none empty or with a dot, succeeds exactly when the
  -- walk along the keys reaches a mutable object, and leaves the state that the walk leaves.
  pub set_key_path-set_along :
      (s : Object) (k : Text) (ks : List Text) (v : Any Object Datum) (st : State)
      → All IsKey (k ∷ ks)
      → (is_done (set_key_path o s (join (k ∷ ks)) v st).0 ≡ (set_along s k ks v st).0)
        × ((set_key_path o s (join (k ∷ ks)) v st).1 ≡ (set_along s k ks v st).1)
  unfolding set_key_path Follows
  set_key_path-set_along s k ks v st h =
      set_loop-set_along (suc (length (join (k ∷ ks)))) s k ks v st h
        (omega (arith, length-le-join k ks))
