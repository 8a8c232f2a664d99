-- ===== src/Observable/Validate/Errors.antt =====
-- observable/validate.go: ValidateSource against the errors that the models of a tree have.
use zugoui.Prelude.{
  Text, text_eq, [], ◌∷◌, ◌++◌, Assoc, insert, All, ◌≡◌, ◌≢◌, ◌⊎◌, inl, inr, refl, ap, subst,
  Bool-cases,
}
use zugoui.Prelude.Dotted.{dot}
use zugoui.Observable.Validate.{
  Verdict, unchecked, valid, fields, failed, Source, no_model, node, Children, end, leaf, child,
  Outcome, pass, invalid, stopped, add_fields, add_outcome, finish, validate, validate_children,
}

module _ {E : Type 0} where
  -- A map holds an entry.
  abbrev pub In : Text → E → Assoc E → Type 0
  In k e [] = ⊥
  In k e ((j, f) ∷ m) = ((j ≡ k) × (f ≡ e)) ⊎ In k e m

  abbrev Each : (Text → E → Type 0) → Assoc E → Type 0
  Each P = All (λ r. P r.0 r.1)

-- A validator that lets the search go on into the keys of its model.
pub data Proceeds {E : Type 0} : Verdict E → Type 0 where
  by_unchecked : Proceeds unchecked
  by_valid : Proceeds valid
  by_fields : (m : Assoc E) → Proceeds (fields m)

mutual
  -- The error `e` of the key path `k`: of the model's own validator, or of a model inside it.
  pub data ErrorAt {E : Type 0} : Source E → Text → E → Type 0 where
    own :
        {m : Assoc E} {cs : Children E} {k : Text} {e : E}
        → In k e m
        → ErrorAt (node (fields m) cs) k e
    inside :
        {v : Verdict E} {cs : Children E} {k : Text} {e : E}
        → Proceeds v
        → ErrorUnder cs k e
        → ErrorAt (node v cs) k e

  -- The same for the keys of a source. A validator that fails with another error than a
  -- ValidationError gives the key of its model that error, and the keys below it none.
  pub data ErrorUnder {E : Type 0} : Children E → Text → E → Type 0 where
    nested :
        {key k path : Text} {s : Source E} {cs : Children E} {e : E}
        → path ≡ key ++ dot ∷ k
        → ErrorAt s k e
        → ErrorUnder (child key s cs) path e
    whole :
        {key : Text} {ds cs : Children E} {e : E}
        → ErrorUnder (child key (node (failed e) ds) cs) key e
    past_leaf :
        {key k : Text} {cs : Children E} {e : E} → ErrorUnder cs k e → ErrorUnder (leaf key cs) k e
    past_child :
        {key k : Text} {s : Source E} {cs : Children E} {e : E}
        → ErrorUnder cs k e
        → ErrorUnder (child key s cs) k e

module _ {E : Type 0} (P : Text → E → Type 0) where
  Each-In : (m : Assoc E) → ((k : Text) (e : E) → In k e m → P k e) → Each P m
  Each-In [] h = tt
  Each-In ((k, e) ∷ m) h = (h k e (inl (refl, refl)), Each-In m (λ j f i. h j f (inr i)))

  In-Each : (m : Assoc E) (k : Text) (e : E) → Each P m → In k e m → P k e
  In-Each [] k e h i = absurd i
  In-Each ((j, f) ∷ m) k e (p, h) (inl (a, b)) = rw (← a, ← b) p
  In-Each ((j, f) ∷ m) k e (p, h) (inr i) = In-Each m k e h i

  Each-insert : (k : Text) (e : E) (m : Assoc E) → P k e → Each P m → Each P (insert k e m)
  unfolding insert
  Each-insert k e [] p h = (p, tt)
  Each-insert k e ((j, f) ∷ m) p (q, h) = elim (Bool-cases (text_eq j k)) [
    | inl t ↦ rw t (p, h)
    | inr n ↦ rw n (q, Each-insert k e m p h)
  ]

  Each-add_fields :
      (key : Text) (m r : Assoc E)
      → ((k : Text) (e : E) → In k e m → P (key ++ dot ∷ k) e)
      → Each P r
      → Each P (add_fields key m r)
  unfolding add_fields
  Each-add_fields key [] r h g = g
  Each-add_fields key ((k, e) ∷ m) r h g =
      Each-add_fields key m (insert (key ++ dot ∷ k) e r) (λ j f i. h j f (inr i))
        (Each-insert (key ++ dot ∷ k) e r (h k e (inl (refl, refl))) g)

module _ {E : Type 0} where
  finish-invalid : (r m : Assoc E) → finish r ≡ invalid m → r ≡ m
  unfolding finish
  finish-invalid [] m h = cc
  finish-invalid (x ∷ r) m h = cc

  finish-ne-stopped : (r : Assoc E) (e : E) → finish r ≢ stopped e
  unfolding finish
  finish-ne-stopped [] e h = cc
  finish-ne-stopped (x ∷ r) e h = cc

  stopped_node :
      (s : Source E) (e : E) → validate s ≡ stopped e → (ds : Children E) × (s ≡ node (failed e) ds)
  unfolding validate
  stopped_node no_model e h = cc
  stopped_node (node unchecked cs) e h = absurd (finish-ne-stopped _ e h)
  stopped_node (node valid cs) e h = absurd (finish-ne-stopped _ e h)
  stopped_node (node (fields m) cs) e h = absurd (finish-ne-stopped _ e h)
  stopped_node (node (failed f) cs) e h = let same : f ≡ e = cc in (cs, rw same)

  Each-add_outcome :
      (P : Text → E → Type 0) (key : Text) (o : Outcome E) (r : Assoc E)
      → ((m : Assoc E) (k : Text) (e : E) → o ≡ invalid m → In k e m → P (key ++ dot ∷ k) e)
      → ((e : E) → o ≡ stopped e → P key e)
      → Each P r
      → Each P (add_outcome key o r)
  unfolding add_outcome
  Each-add_outcome P key pass r f g h = h
  Each-add_outcome P key (invalid m) r f g h = Each-add_fields P key m r (λ k e. f m k e refl) h
  Each-add_outcome P key (stopped e) r f g h = Each-insert P key e r (g e refl) h

  under_stopped :
      (key : Text) (s : Source E) (cs : Children E) (e : E)
      → validate s ≡ stopped e
      → ErrorUnder (child key s cs) key e
  under_stopped key s cs e h = let (ds, q) = stopped_node s e h in rw q whole

mutual
  unfolding validate validate_children

  validate_sound :
      {E : Type 0} (s : Source E) (m : Assoc E) → validate s ≡ invalid m → Each (ErrorAt s) m
  validate_sound no_model m h = cc
  validate_sound (node unchecked cs) m h =
      rw (← finish-invalid _ m h)
        (children_sound cs [] (node unchecked cs) tt (λ k e u. inside by_unchecked u))
  validate_sound (node valid cs) m h =
      rw (← finish-invalid _ m h)
        (children_sound cs [] (node valid cs) tt (λ k e u. inside by_valid u))
  validate_sound (node (fields f) cs) m h = rw (← finish-invalid _ m h) (
      children_sound cs f (node (fields f) cs)
        (Each-In (ErrorAt (node (fields f) cs)) f (λ k e i. own i))
        (λ k e u. inside (by_fields f) u))
  validate_sound (node (failed e) cs) m h = cc

  children_sound :
      {E : Type 0} (cs : Children E) (r : Assoc E) (t : Source E)
      → Each (ErrorAt t) r
      → ((k : Text) (e : E) → ErrorUnder cs k e → ErrorAt t k e)
      → Each (ErrorAt t) (validate_children cs r)
  children_sound end r t h g = h
  children_sound (leaf key cs) r t h g = children_sound cs r t h (λ k e u. g k e (past_leaf u))
  children_sound (child key s cs) r t h g =
      children_sound cs (add_outcome key (validate s) r) t
        (Each-add_outcome (ErrorAt t) key (validate s) r
          (λ m k e q i.
            g (key ++ dot ∷ k) e (nested refl (In-Each (ErrorAt s) m k e (validate_sound s m q) i)))
          (λ e q. g key e (under_stopped key s cs e q)) h)
        (λ k e u. g k e (past_child u))

-- Every entry that ValidateSource returns is an error of a model of the tree, under its key path.
pub validate-ErrorAt :
    {E : Type 0} (s : Source E) (m : Assoc E) (k : Text) (e : E)
    → validate s ≡ invalid m
    → In k e m
    → ErrorAt s k e
validate-ErrorAt s m k e h i = In-Each (ErrorAt s) m k e (validate_sound s m h) i

module _ {E : Type 0} where
  finish-pass : (r : Assoc E) → finish r ≡ pass → r ≡ []
  unfolding finish
  finish-pass [] h = refl
  finish-pass (x ∷ r) h = cc

  finish-ne-empty : (r : Assoc E) → finish r ≢ invalid []
  unfolding finish
  finish-ne-empty [] h = cc
  finish-ne-empty (x ∷ r) h = cc

  validate-ne-empty : (s : Source E) → validate s ≢ invalid []
  unfolding validate
  validate-ne-empty no_model h = cc
  validate-ne-empty (node unchecked cs) h = finish-ne-empty _ h
  validate-ne-empty (node valid cs) h = finish-ne-empty _ h
  validate-ne-empty (node (fields m) cs) h = finish-ne-empty _ h
  validate-ne-empty (node (failed e) cs) h = cc

  insert-ne-nil : (k : Text) (e : E) (m : Assoc E) → insert k e m ≢ []
  unfolding insert
  insert-ne-nil k e [] h = cc
  insert-ne-nil k e ((j, f) ∷ m) h = elim (Bool-cases (text_eq j k)) [
    | inl t ↦ absurd_cons (rw t at h)
    | inr n ↦ absurd_cons (rw n at h)
  ]
    where
      absurd_cons : {x : Text × E} {xs : Assoc E} → x ∷ xs ≡ [] → ⊥
      absurd_cons p = cc

  add_fields-nil : (key : Text) (m r : Assoc E) → add_fields key m r ≡ [] → (r ≡ []) × (m ≡ [])
  unfolding add_fields
  add_fields-nil key [] r h = (h, refl)
  add_fields-nil key ((k, e) ∷ m) r h =
      absurd (insert-ne-nil (key ++ dot ∷ k) e r (add_fields-nil key m _ h).0)

  add_outcome-nil :
      (key : Text) (o : Outcome E) (r : Assoc E)
      → o ≢ invalid []
      → add_outcome key o r ≡ []
      → (r ≡ []) × (o ≡ pass)
  unfolding add_outcome
  add_outcome-nil key pass r n h = (h, refl)
  add_outcome-nil key (invalid m) r n h =
      let (a, b) = add_fields-nil key m r h in absurd (n (ap invalid b))
  add_outcome-nil key (stopped e) r n h = absurd (insert-ne-nil key e r h)

  -- What an error at a node, or under its keys, comes from.
  not_no_model : {k : Text} {e : E} → ErrorAt no_model k e → ⊥
  not_no_model x = elim x [ ]

  at_unchecked :
      {cs : Children E} {k : Text} {e : E}
      → ErrorAt (node unchecked cs) k e
      → (ErrorUnder cs k e → ⊥)
      → ⊥
  at_unchecked (inside p u) no_under = no_under u

  at_valid :
      {cs : Children E} {k : Text} {e : E}
      → ErrorAt (node valid cs) k e
      → (ErrorUnder cs k e → ⊥)
      → ⊥
  at_valid (inside p u) no_under = no_under u

  at_fields :
      {m : Assoc E} {cs : Children E} {k : Text} {e : E}
      → ErrorAt (node (fields m) cs) k e
      → m ≡ []
      → (ErrorUnder cs k e → ⊥)
      → ⊥
  at_fields {k = k} {e = e} (own i) empty no_under = subst (In k e) empty i
  at_fields (inside p u) empty no_under = no_under u

  not_end : {k : Text} {e : E} → ErrorUnder end k e → ⊥
  not_end x = elim x [ ]

  under_leaf :
      {key : Text} {cs : Children E} {k : Text} {e : E}
      → ErrorUnder (leaf key cs) k e
      → ErrorUnder cs k e
  under_leaf (past_leaf u) = u

  under_child :
      {key : Text} {s : Source E} {cs : Children E} {k : Text} {e : E}
      → ErrorUnder (child key s cs) k e
      → validate s ≡ pass
      → ((j : Text) (f : E) → ErrorAt s j f → ⊥)
      → (ErrorUnder cs k e → ⊥)
      → ⊥
  under_child (nested p x) clean no_at no_under = no_at _ _ x
  under_child whole clean no_at no_under = unfold validate in cc
  under_child (past_child u) clean no_at no_under = no_under u

mutual
  unfolding validate validate_children

  validate_clean :
      {E : Type 0} (s : Source E) → validate s ≡ pass → (k : Text) (e : E) → ErrorAt s k e → ⊥
  validate_clean no_model h k e x = not_no_model x
  validate_clean (node unchecked cs) h k e x =
      at_unchecked x ((children_clean cs [] (finish-pass _ h)).1 k e)
  validate_clean (node valid cs) h k e x =
      at_valid x ((children_clean cs [] (finish-pass _ h)).1 k e)
  validate_clean (node (fields m) cs) h k e x =
      let (empty, under) = children_clean cs m (finish-pass _ h) in at_fields x empty (under k e)
  validate_clean (node (failed f) cs) h k e x = cc

  children_clean :
      {E : Type 0} (cs : Children E) (r : Assoc E)
      → validate_children cs r ≡ []
      → (r ≡ []) × ((k : Text) (e : E) → ErrorUnder cs k e → ⊥)
  children_clean end r h = (h, λ k e u. not_end u)
  children_clean (leaf key cs) r h =
      let (a, b) = children_clean cs r h in (a, λ k e u. b k e (under_leaf u))
  children_clean (child key s cs) r h =
      let (a, b) = children_clean cs (add_outcome key (validate s) r) h in
      let (c, d) = add_outcome-nil key (validate s) r (validate-ne-empty s) a in
      (c, λ k e u. under_child u d (validate_clean s d) (b k e))

-- ValidateSource returns no error only for a tree in which no model has one.
pub validate-pass :
    {E : Type 0} (s : Source E) (k : Text) (e : E) → validate s ≡ pass → ¬ ErrorAt s k e
validate-pass s k e h x = validate_clean s h k e x
