-- ===== src/Browser/FormStore/Fields.antt =====
-- browser/formstore.go: the errors of a form by the paths that the page uses.
use zugoui.Prelude.{
  Text, text_eq, text_eq_iff, List, [], ◌∷◌, Assoc, lookup, insert, lookup-insert, true, false,
  Option, some, ◌≡◌, ◌⊎◌, inl, inr, refl, ap, ◌∙◌, Bool-cases,
}
use mathlib.Core.Option
use zugoui.JsonPath.{Ref, ok, key_path, from_key_path}
use zugoui.JsonPath.RoundTrip.{HasGoNames, from_key_path-key_path}
use zugoui.Observable.Validate.{invalid, validate}
use zugoui.Observable.Validate.Errors.{In}
use zugoui.Wsrpc.Failure.{GoError, RpcError, rpc_error}
use zugoui.Browser.FormStore.{
  Outside, FormStore, Input, new_form_store, add_errors, errors_of, error_object, run,
}
use zugoui.Browser.FormStore.Fresh.{IsDeepEqual, IsQuiet, run-errors}

module _ {M B V W P Q : Type 0} (o : Outside M B V W P Q) (t : Option (Ref B)) (path : Text) where
  -- The errors that a map of fields has for the path.
  abbrev pub Reports : Assoc (GoError P) → GoError P → Type 0
  Reports m e = (k : Text) × In k e m × (from_key_path o.shape o.promoted t k ≡ path)

  -- The path has an error of the kind `R`.
  abbrev Has : (GoError P → Type 0) → Assoc (RpcError P) → Type 0
  Has R errs = (e : GoError P) × (lookup path errs ≡ some (rpc_error e)) × R e

  module _ (R : GoError P → Type 0) where
    put :
        (k : Text) (e : GoError P) (errs : Assoc (RpcError P))
        → (k ≡ path → R e)
        → (k ≡ path) ⊎ Has R errs
        → Has R (insert k (rpc_error e) errs)
    put k e errs r h = elim (Bool-cases (text_eq k path)) [
      | inl y ↦
          (e, lookup-insert k path (rpc_error e) errs ∙ (rw y refl), r ((text_eq_iff k path).0 y))
      | inr n ↦ kept n h
    ]
      where
        kept :
            text_eq k path ≡ false → (k ≡ path) ⊎ Has R errs → Has R (insert k (rpc_error e) errs)
        kept n (inl p) = let y = (text_eq_iff k path).1 p in cc
        kept n (inr (e', l, x)) = (e', lookup-insert k path (rpc_error e) errs ∙ (rw n l), x)

    -- an error that is there is kept, or is replaced by another of the kind
    add_errors-keeps :
        (m : Assoc (GoError P)) (errs : Assoc (RpcError P))
        → ((e : GoError P) → Reports m e → R e)
        → Has R errs
        → Has R (add_errors o t m errs)
    unfolding add_errors
    add_errors-keeps [] errs r h = h
    add_errors-keeps ((k, e) ∷ m) errs r h =
        add_errors-keeps m _ (λ e' (j, i, p). r e' (j, inr i, p))
          (put (from_key_path o.shape o.promoted t k) e errs (λ p. r e (k, inl (refl, refl), p))
            (inr h))

    add_errors-finds :
        (m : Assoc (GoError P)) (errs : Assoc (RpcError P)) (e : GoError P)
        → ((e' : GoError P) → Reports m e' → R e')
        → Reports m e
        → Has R (add_errors o t m errs)
    unfolding add_errors
    add_errors-finds [] errs e r (k, i, p) = absurd i
    add_errors-finds ((k, e) ∷ m) errs e' r (j, inl (q, _), p) =
        add_errors-keeps m _ (λ e'' (j, i, p). r e'' (j, inr i, p))
          (put (from_key_path o.shape o.promoted t k) e errs (λ p. r e (k, inl (refl, refl), p))
            (inl (ap (from_key_path o.shape o.promoted t) q ∙ p)))
    add_errors-finds ((k, e) ∷ m) errs e' r (j, inr i, p) =
        add_errors-finds m _ e' (λ e'' (j, i, p). r e'' (j, inr i, p)) (j, i, p)

module _ {M B V W P Q C : Type 0} (o : Outside M B V W P Q) where
  -- After any calls, while the store watches a model: where KeyPath turns a path of the page into a
  -- key path, and validation of the model reports an error for this key path, the page reads under
  -- its path an error that validation reports, for this key path or for one with the same JSON
  -- path. Structs have the field names that Go allows, and writes that notify nobody leave the
  -- model as it is.
  pub run-Reports :
      (is : List (Input C M V)) (m : M) (path k : Text) (u : Ref B) (fields : Assoc (GoError P))
      (e : GoError P)
      → ((b : B) → HasGoNames (o.shape b))
      → IsDeepEqual o
      → IsQuiet o
      → (run o {C = C} is new_form_store).watching ≡ true
      → (run o {C = C} is new_form_store).source ≡ some m
      → key_path o.shape (run o {C = C} is new_form_store).typ path ≡ ok (k, u)
      → validate (o.tree m) ≡ invalid fields
      → In k e fields
      → let f = run o {C = C} is new_form_store in
        (e' : GoError P) × Reports o f.typ path fields e'
        × (lookup path f.errors.1 ≡ some (error_object o (rpc_error e')))
  unfolding errors_of
  run-Reports is m path k u fields e names sound quiet w at p bad i =
      let f : FormStore C M B V P Q = run o is new_form_store in
      let named = from_key_path-key_path o.shape o.promoted names f.typ path k u p in
      let (e', l, r) =
        add_errors-finds o f.typ path (Reports o f.typ path fields) fields [] e (λ x h. h)
          (k, i, named) in
      (
        e',
        r,
        run-errors o sound quiet is m path w at ∙ (rw bad (ap (Option.map (error_object o)) l)),
      )
