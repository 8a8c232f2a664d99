-- ===== src/Observable/PathObserver/Following.antt =====
-- observable/path.go: a PathObserver with a wildcard has a path observer at every source below it.
use zugoui.Prelude.{
  Text, text_eq, text_eq_iff, text_eq_refl, List, [], ◌∷◌, ◌++◌, Bool, true, false, Option, none,
  some, ◌≡◌, refl, ap, ◌∙◌, subst, inl, inr, Bool-cases, if◌then◌else◌, arith,
}
use zugoui.Prelude.Dotted.{cut}
use zugoui.Observable.PathObserver.{
  Node, plain, nil, object, Kids, no_kids, kid, Watch, watch, Downs, no_downs, down, Notices,
  joined, star, value_at, put, told_if, down_at, without_down, put_down, key_and_suffix, built,
  kept_at, observe_all, observe, renew, set_value, heard, write, passed, deliver, put_in,
}

-- The path observer has the prefix, and so on for each source below.
mutual
  pub data Follows {V : Type 0} : Text → Kids V → Watch → Type 0 where
    follows :
        {pre : Text} {kids : Kids V} {downs : Downs}
        → ((p : Text) (inner : Kids V)
            → value_at p kids ≡ object inner
            → FollowsAt (joined pre p) inner (down_at p downs))
        → Follows pre kids (watch pre [] star downs)

  pub data FollowsAt {V : Type 0} : Text → Kids V → Option Watch → Type 0 where
    follows_at :
        {pre : Text} {kids : Kids V} {w : Watch} → Follows pre kids w → FollowsAt pre kids (some w)

-- The values below a key path that are no sources, with their key paths, in the order of the keys.
mutual
  pub leaves : {V : Type 0} → Text → Node V → Notices V
  leaves path (object kids) = leaves_in path kids
  leaves path (plain v) = []
  leaves path nil = []

  leaves_in : {V : Type 0} → Text → Kids V → Notices V
  leaves_in path no_kids = []
  leaves_in path (kid k n kids) = leaf_at (joined path k) n ++ leaves_in path kids

  leaf_at : {V : Type 0} → Text → Node V → Notices V
  leaf_at path (object kids) = leaves_in path kids
  leaf_at path (plain v) = (path, plain v) ∷ []
  leaf_at path nil = (path, nil) ∷ []

-- the prefix of the path observer that some keys lead to
abbrev pub below : Text → List Text → Text
below pre [] = pre
below pre (p ∷ ps) = below (joined pre p) ps

-- What a change is notified as: the key with the value that it is set to, and then what is below
-- the value that the source gives for the key after that.
abbrev pub changes : {V : Type 0} → Text → Node V → Node V → Notices V
changes path v n = (path, v) ∷ leaves path n

module _ {V : Type 0} where
  pub value_at-put :
      (key p : Text) (v : Node V) (kids : Kids V)
      → value_at p (put key v kids) ≡ (if text_eq key p then v else value_at p kids)
  unfolding value_at put
  value_at-put key p v no_kids = refl
  value_at-put key p v (kid k n kids) =
      ground
        (arith, text_eq_iff k key, text_eq_iff k p, text_eq_iff key p, value_at-put key p v kids)

pub down_at-without_down :
    (key p : Text) (downs : Downs)
    → down_at p (without_down key downs) ≡ (if text_eq key p then none else down_at p downs)
unfolding down_at without_down
down_at-without_down key p no_downs = ground arith
down_at-without_down key p (down k w downs) =
    ground (
      arith,
      text_eq_iff k key,
      text_eq_iff k p,
      text_eq_iff key p,
      down_at-without_down key p downs,
    )

pub down_at-put_down :
    (key p : Text) (w : Watch) (downs : Downs)
    → down_at p (put_down key w downs) ≡ (if text_eq key p then some w else down_at p downs)
unfolding down_at put_down
down_at-put_down key p w downs = ground (arith, down_at-without_down key p downs)

module _ {V : Type 0} where
  by_key :
      (pre : Text) {p k : Text} {ks inner : Kids V} {w : Watch}
      → k ≡ p
      → object ks ≡ object inner
      → Follows (joined pre k) ks w
      → FollowsAt (joined pre p) inner (some w)
  by_key pre {k = k} {ks = ks} {inner = inner} {w = w} q e f =
      let e' : ks ≡ inner = cc in
      follows_at (
        subst (λ x. Follows (joined pre x) inner w) q
          (subst (λ x. Follows (joined pre k) x w) e' f))

  observe_all-FollowsAt :
      (pre p : Text) (notify : Bool) (kids inner : Kids V)
      → value_at p kids ≡ object inner
      → FollowsAt (joined pre p) inner (down_at p (observe_all pre star notify kids).0)
  unfolding value_at down_at observe_all built kept_at key_and_suffix cut text_eq
  observe_all-FollowsAt pre p notify no_kids inner e = cc
  observe_all-FollowsAt pre p notify (kid k (plain v) kids) inner e =
      elim (Bool-cases (text_eq k p)) [
        | inl t ↦ let e' = rw t at e in cc
        | inr n ↦ observe_all-FollowsAt pre p notify kids inner (rw n at e)
      ]
  observe_all-FollowsAt pre p notify (kid k nil kids) inner e = elim (Bool-cases (text_eq k p)) [
    | inl t ↦ let e' = rw t at e in cc
    | inr n ↦ observe_all-FollowsAt pre p notify kids inner (rw n at e)
  ]
  observe_all-FollowsAt pre p notify (kid k (object ks) kids) inner e =
      elim (Bool-cases (text_eq k p)) [
        | inl t ↦ rw t (
            by_key pre ((text_eq_iff k p).0 t) (rw t at e)
              (follows (λ q. observe_all-FollowsAt (joined pre k) q notify ks)))
        | inr n ↦ rw n (observe_all-FollowsAt pre p notify kids inner (rw n at e))
      ]

  observe_all-leaves :
      (pre : Text) (kids : Kids V) → (observe_all pre star true kids).1 ≡ leaves_in pre kids
  unfolding observe_all told_if built key_and_suffix cut text_eq leaves
  observe_all-leaves pre no_kids = refl
  observe_all-leaves pre (kid k (plain v) kids) =
      ap (λ x. (joined pre k, plain v) ∷ x) (observe_all-leaves pre kids)
  observe_all-leaves pre (kid k nil kids) =
      ap (λ x. (joined pre k, nil) ∷ x) (observe_all-leaves pre kids)
  observe_all-leaves pre (kid k (object ks) kids) =
      rw (observe_all-leaves (joined pre k) ks, observe_all-leaves pre kids) refl

  observe-leaves :
      (pre : Text) (kids : Kids V) → (observe pre star true kids).1 ≡ leaves_in pre kids
  unfolding observe built key_and_suffix cut text_eq
  observe-leaves pre kids = observe_all-leaves pre kids

  -- a path observer with a wildcard, when it is made
  pub observe-Follows :
      (pre : Text) (notify : Bool) (kids : Kids V)
      → Follows pre kids (observe pre star notify kids).0
  unfolding observe built key_and_suffix cut text_eq
  observe-Follows pre notify kids = follows (λ p. observe_all-FollowsAt pre p notify kids)

  -- a key of a source with another value, and the path observer of the key renewed
  replaced :
      (pre key : Text) (n : Node V) (kids : Kids V) (downs downs' : Downs)
      → ((p : Text) (inner : Kids V)
          → value_at p kids ≡ object inner
          → FollowsAt (joined pre p) inner (down_at p downs))
      → ((p : Text) → text_eq key p ≡ false → down_at p downs' ≡ down_at p downs)
      → ((inner : Kids V)
          → n ≡ object inner
          → FollowsAt (joined pre key) inner (down_at key downs'))
      → Follows pre (put key n kids) (watch pre [] star downs')
  replaced pre key n kids downs downs' h others at = follows {kids = put key n kids} (λ p inner e.
      elim (Bool-cases (text_eq key p)) [
        | inl t ↦
            subst (λ x. FollowsAt (joined pre x) inner (down_at x downs')) ((text_eq_iff key p).0 t)
              (at inner (rw (value_at-put key p n kids, t) at e))
        | inr f ↦ rw (others p f) (h p inner (rw (value_at-put key p n kids, f) at e))
      ])

  heard_sound :
      (pre key : Text) (v n : Node V) (kids : Kids V) (w : Watch)
      → Follows pre kids w
      → let r = heard key v (put key n kids) w in
        Follows pre (put key n kids) r.0 × (r.1 ≡ changes (joined pre key) v n)
  unfolding heard set_value renew leaves text_eq
  heard_sound pre key v n kids (watch _ _ _ downs) (follows h) =
      renewed (value_at key (put key n kids))
        (value_at-put key key n kids ∙ (rw (text_eq_refl key) refl))
    where
      old : Downs
      old = without_down key downs

      kept : (p : Text) → text_eq key p ≡ false → down_at p old ≡ down_at p downs
      kept p f = rw (down_at-without_down key p downs, f) refl

      renewed :
          (n' : Node V)
          → n' ≡ n
          → let r = renew pre [] star key old n' in
            Follows pre (put key n kids) r.0
            × ((joined pre key, v) ∷ r.1 ≡ changes (joined pre key) v n)
      renewed (plain x) q =
          (replaced pre key n kids downs old h kept (λ inner e. cc), rw (← q) refl)
      renewed nil q = (replaced pre key n kids downs old h kept (λ inner e. cc), rw (← q) refl)
      renewed (object ks) q =
          let w : Watch = (observe (joined pre key) star true ks).0 in
          (
            replaced pre key n kids downs (put_down key w old) h
                (λ p f. rw (down_at-put_down key p w old, f) (kept p f))
                (λ inner e.
                  rw (down_at-put_down key key w old, text_eq_refl key)
                    (by_key pre refl (q ∙ e) (observe-Follows (joined pre key) true ks))),
            rw (← q) (ap (λ x. (joined pre key, v) ∷ x) (observe-leaves (joined pre key) ks)),
          )

  -- What a path observer has become, and what it notified.
  abbrev Told : Text → Kids V → Text → Node V → Node V → Watch × Notices V → Type 0
  Told pre kids path v n r = Follows pre kids r.0 × (r.1 ≡ changes path v n)

  reached :
      (pre : Text) (kids : Kids V) (x : Option Watch)
      → FollowsAt pre kids x
      → (w : Watch) × (x ≡ some w) × Follows pre kids w
  reached pre kids none x = elim x [ ]
  reached pre kids (some w) (follows_at f) = (w, refl, f)

  -- a change below a key, from the same for the source that the key holds
  passed_sound :
      (ps : List Text) (pre p key : Text) (v new : Node V) (kids kids' : Kids V) (downs : Downs)
      → ((q : Text) (inner : Kids V)
          → value_at q kids ≡ object inner
          → FollowsAt (joined pre q) inner (down_at q downs))
      → ((ks ks' : Kids V) (w : Watch)
          → Follows (joined pre p) ks w
          → write ps key new ks ≡ some ks'
          → Told
              (joined pre p)
              ks'
              (joined (below (joined pre p) ps) key)
              v
              new
              (deliver ps key v ks' w))
      → (n : Node V) → value_at p kids ≡ n
      → put_in p (λ inner. write ps key new inner) n kids ≡ some kids'
      → Told pre kids' (joined (below (joined pre p) ps) key) v new (
          passed p
            (λ inner w. deliver ps key v inner w)
            (value_at p kids')
            (down_at p downs)
            (watch pre [] star downs))
  unfolding put_in passed
  passed_sound ps pre p key v new kids kids' downs h ih (plain x) at e = absurd cc
  passed_sound ps pre p key v new kids kids' downs h ih nil at e = absurd cc
  passed_sound ps pre p key v new kids kids' downs h ih (object ks) at e =
      through (write ps key new ks) refl e
    where
      path : Text
      path = joined (below (joined pre p) ps) key

      Goal : Node V → Option Watch → Kids V → Type 0
      Goal n x k =
          Told pre k path v new
            (passed p (λ inner w. deliver ps key v inner w) n x (watch pre [] star downs))

      through :
          (r : Option (Kids V))
          → write ps key new ks ≡ r
          → elim r [ none ↦ none | some inner ↦ some (put p (object inner) kids) ] ≡ some kids'
          → Goal (value_at p kids') (down_at p downs) kids'
      through none q e' = absurd cc
      through (some ks') q e' =
          let same : put p (object ks') kids ≡ kids' = cc in
          let (w, x, f) = reached (joined pre p) ks (down_at p downs) (h p ks at) in
          let (f', out) = ih ks ks' w f q in
          let w' : Watch = (deliver ps key v ks' w).0 in
          let held : value_at p (put p (object ks') kids) ≡ object ks' =
            value_at-put p p (object ks') kids ∙ (rw (text_eq_refl p) refl) in
          subst (λ k. Goal (value_at p k) (down_at p downs) k) same
            (rw (held, x)
              (
                replaced pre p (object ks') kids downs (put_down p w' downs) h
                    (λ q f. rw (down_at-put_down p q w' downs, f) refl)
                    (λ inner e.
                      rw (down_at-put_down p p w' downs, text_eq_refl p) (by_key pre refl e f')),
                out,
              ))

  pub deliver_sound :
      (ps : List Text) (pre key : Text) (v new : Node V) (kids kids' : Kids V) (w : Watch)
      → Follows pre kids w
      → write ps key new kids ≡ some kids'
      → let r = deliver ps key v kids' w in
        Follows pre kids' r.0 × (r.1 ≡ changes (joined (below pre ps) key) v new)
  unfolding write deliver passed put_in
  deliver_sound [] pre key v new kids kids' w f e =
      let e' : put key new kids ≡ kids' = cc in
      subst
        (λ x.
          Follows pre x (heard key v x w).0
          × ((heard key v x w).1 ≡ changes (joined pre key) v new))
        e' (heard_sound pre key v new kids w f)
  deliver_sound (p ∷ ps) pre key v new kids kids' (watch _ _ _ downs) (follows h) e =
      passed_sound ps pre p key v new kids kids' downs h
        (λ ks ks' w f e'. deliver_sound ps (joined pre p) key v new ks ks' w f e') (value_at p kids)
        refl e
