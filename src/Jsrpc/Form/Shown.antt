-- ===== src/Jsrpc/Form/Shown.antt =====
-- jsrpc/form.go: which errors a form shows under the ids of its elements.
use zugoui.Prelude.{
  Text, text_eq, text_eq_iff, text_eq_refl, List, [], ◌∷◌, ◌++◌, Assoc, lookup, insert,
  lookup-insert, lookup-empty, Bool, false, ◌||◌, ◌&&◌, Option, none, some, if◌then◌else◌, ◌≡◌,
  refl, ◌∙◌, subst, inl, inr, Bool-cases, Option-cases, arith,
}
use zugoui.Observable.Validate.{Source, invalid, validate}
use zugoui.Jsrpc.Form.{
  ids_of, ids_at, add_ids, new_form, put_error, put_errors, errors_from, errors,
}

-- The entries are those of a map: no key has two.
abbrev pub IsMap {ℓ} : {V : Type ℓ} → Assoc V → Type ℓ
IsMap [] = Unit
IsMap ((k, v) ∷ m) = (lookup k m ≡ none) × IsMap m

has : Text → List Text → Bool
has id [] = false
has id (x ∷ xs) = text_eq x id || has id xs

-- the id is bound to the key path by an entry
bound_in : Text → Text → Assoc Text → Bool
bound_in id key [] = false
bound_in id key ((i, k) ∷ keys) = (text_eq i id && text_eq k key) || bound_in id key keys

has-append : (id x : Text) (xs : List Text) → has id (xs ++ x ∷ []) ≡ (has id xs || text_eq x id)
unfolding has
has-append id x [] = ground arith
has-append id x (y ∷ xs) = ground (arith, has-append id x xs)

ids_at-insert :
    (k key : Text) (ids : List Text) (fields : Assoc (List Text))
    → ids_at k (insert key ids fields) ≡ (if text_eq key k then ids else ids_at k fields)
unfolding ids_at ids_of
ids_at-insert k key ids fields = elim (Bool-cases (text_eq key k)) [
  | inl t ↦ rw (lookup-insert key k ids fields, t) refl
  | inr f ↦ rw (lookup-insert key k ids fields, f) refl
]

has-add_ids :
    (id key : Text) (keys : Assoc Text) (fields : Assoc (List Text))
    → has id (ids_at key (add_ids keys fields))
      ≡ (has id (ids_at key fields) || bound_in id key keys)
unfolding add_ids bound_in
has-add_ids id key [] fields = ground arith
has-add_ids id key ((i, k) ∷ keys) fields =
    has-add_ids id key keys (insert k (ids_at k fields ++ i ∷ []) fields) ∙ here
  where
    here :
        (has id (ids_at key (insert k (ids_at k fields ++ i ∷ []) fields)) || bound_in id key keys)
        ≡ (has id (ids_at key fields) || ((text_eq i id && text_eq k key) || bound_in id key keys))
    here = elim (Bool-cases (text_eq k key)) [
      | inr f ↦ rw (ids_at-insert key k (ids_at k fields ++ i ∷ []) fields, f) (ground arith)
      | inl t ↦
          rw
            (
              ids_at-insert key k (ids_at k fields ++ i ∷ []) fields,
              t,
              has-append id i (ids_at k fields),
              (text_eq_iff k key).0 t,
            )
            (ground arith)
    ]

bound_in-none :
    (id key : Text) (keys : Assoc Text) → lookup id keys ≡ none → bound_in id key keys ≡ false
unfolding lookup bound_in
bound_in-none id key [] h = refl
bound_in-none id key ((i, k) ∷ keys) h = ground (arith, bound_in-none id key keys)

bound_in-some :
    (id key k : Text) (keys : Assoc Text)
    → IsMap keys
    → lookup id keys ≡ some k
    → bound_in id key keys ≡ text_eq k key
unfolding lookup bound_in
bound_in-some id key k [] d h = absurd cc
bound_in-some id key k ((i, j) ∷ keys) (n, d) h = elim (Bool-cases (text_eq i id)) [
  | inl t ↦
      let same : some j ≡ some k = rw t at h in
      let gone : lookup id keys ≡ none =
        subst (λ x. lookup x keys ≡ none) ((text_eq_iff i id).0 t) n in
      let e : j ≡ k = cc in rw (t, bound_in-none id key keys gone, e) (ground arith)
  | inr f ↦ rw f (bound_in-some id key k keys d (rw f at h))
]

module _ {E : Type 0} where
  lookup-put_error :
      (id : Text) (ids : List Text) (e : E) (result : Assoc E)
      → lookup id (put_error ids e result) ≡ (if has id ids then some e else lookup id result)
  unfolding put_error has
  lookup-put_error id [] e result = refl
  lookup-put_error id (x ∷ ids) e result =
      lookup-put_error id ids e (insert x e result)
      ∙ (rw (lookup-insert x id e result) (ground arith))

  -- the error of a key path, or what was there
  first_of : Option E → Option E → Option E
  first_of none old = old
  first_of (some e) old = some e

  first_of-none : (o : Option E) → first_of o none ≡ o
  unfolding first_of
  first_of-none none = refl
  first_of-none (some e) = refl

  -- an id that no key path has
  put_errors-unbound :
      (id : Text) (fields : Assoc (List Text)) (errs result : Assoc E)
      → ((key : Text) → has id (ids_at key fields) ≡ false)
      → lookup id (put_errors fields errs result) ≡ lookup id result
  unfolding put_errors
  put_errors-unbound id fields [] result h = refl
  put_errors-unbound id fields ((key, e) ∷ errs) result h =
      put_errors-unbound id fields errs (put_error (ids_at key fields) e result) h
      ∙ lookup-put_error id (ids_at key fields) e result
      ∙ (rw (h key) refl)

  -- an id that one key path has
  put_errors-bound :
      (id k : Text) (fields : Assoc (List Text)) (errs result : Assoc E)
      → ((key : Text) → has id (ids_at key fields) ≡ text_eq k key)
      → IsMap errs
      → lookup id (put_errors fields errs result) ≡ first_of (lookup k errs) (lookup id result)
  unfolding put_errors first_of lookup
  put_errors-bound id k fields [] result h d = refl
  put_errors-bound id k fields ((key, e) ∷ errs) result h (n, d) =
      put_errors-bound id k fields errs (put_error (ids_at key fields) e result) h d
      ∙ (rw (lookup-put_error id (ids_at key fields) e result, h key) here)
    where
      here :
          first_of (lookup k errs) (if text_eq k key then some e else lookup id result)
          ≡ first_of (if text_eq key k then some e else lookup k errs) (lookup id result)
      here = elim (Bool-cases (text_eq k key)) [
        | inl t ↦ let same = (text_eq_iff k key).0 t in rw (same, text_eq_refl key, n) refl
        | inr f ↦
            let f' : text_eq key k ≡ false = ground (arith, text_eq_iff k key, text_eq_iff key k) in
            rw (f, f') refl
      ]

  -- the error of the key path that an id is bound to
  unfoldable pub error_of : Option Text → Assoc E → Option E
  error_of none errs = none
  error_of (some key) errs = lookup key errs

  -- When ValidateSource of a form's source gives validation errors, the form shows under each id the
  -- error of the key path that the id is bound to, if there is one, and shows nothing under any
  -- other text, in whatever order the loops meet the entries of the maps.
  pub errors-new_form :
      (keys : Assoc Text) (source : Source E) (errs : Assoc E) (id : Text)
      → IsMap keys
      → IsMap errs
      → validate source ≡ invalid errs
      → lookup id (errors (new_form keys) source) ≡ error_of (lookup id keys) errs
  unfolding errors errors_from new_form has error_of
  errors-new_form keys source errs id ks es e = elim (Option-cases (lookup id keys)) [
    | inl n ↦
        rw (e, n)
          (put_errors-unbound id (add_ids keys []) errs []
              (λ key. has-add_ids id key keys [] ∙ (rw (bound_in-none id key keys n) refl))
            ∙ lookup-empty id)
    | inr (k, b) ↦
        rw (e, b)
          (put_errors-bound id k (add_ids keys []) errs []
              (λ key. has-add_ids id key keys [] ∙ (rw (bound_in-some id key k keys ks b) refl)) es
            ∙ (rw (lookup-empty id) (first_of-none (lookup k errs))))
  ]
