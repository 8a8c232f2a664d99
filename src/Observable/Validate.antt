-- ===== src/Observable/Validate.antt =====
-- observable/validate.go: the errors of a model and of the models inside it, by key path.
-- A source is the tree that ValidateSource walks: what its model's validator answers, and its keys
-- with the values that are sources. An error that is no ValidationError is of the type `E`; what
-- errors.AsType finds in an error's chain is already taken out of it. A ValidationError is a map that
-- can be written: with a nil map as the error of a model, an error of a model inside it panics, which
-- is not modelled.
pub mod Errors
mod Tests
use zugoui.Prelude.{Text, List, [], ◌∷◌, ◌++◌, Assoc, insert, Option, none, some}
use zugoui.Prelude.Dotted.{dot}

-- The answer of ValidateModel.
pub data Verdict (E : Type 0) : Type 0 where
  unchecked : Verdict E
  valid : Verdict E
  fields : Assoc E → Verdict E
  failed : E → Verdict E

mutual
  -- `no_model` is a source whose Model() is not valid
  pub data Source (E : Type 0) : Type 0 where
    no_model : Source E
    node : Verdict E → Children E → Source E

  pub data Children (E : Type 0) : Type 0 where
    end : Children E
    leaf : Text → Children E → Children E
    child : Text → Source E → Children E → Children E

-- What ValidateSource returns.
pub data Outcome (E : Type 0) : Type 0 where
  pass : Outcome E
  invalid : Assoc E → Outcome E
  stopped : E → Outcome E

module _ {E : Type 0} where
  -- for k, v := range keyResult { result[key+"."+k] = v }
  unfoldable pub add_fields : Text → Assoc E → Assoc E → Assoc E
  add_fields key [] result = result
  add_fields key ((k, e) ∷ m) result = add_fields key m (insert (key ++ dot ∷ k) e result)

  unfoldable pub add_outcome : Text → Outcome E → Assoc E → Assoc E
  unfolding add_fields
  add_outcome key pass result = result
  add_outcome key (invalid m) result = add_fields key m result
  add_outcome key (stopped e) result = insert key e result

  unfoldable pub finish : Assoc E → Outcome E
  finish [] = pass
  finish (r ∷ rs) = invalid (r ∷ rs)

unfoldable mutual
  unfolding add_outcome finish

  pub validate : {E : Type 0} → Source E → Outcome E
  validate no_model = pass
  validate (node unchecked cs) = finish (validate_children cs [])
  validate (node valid cs) = finish (validate_children cs [])
  validate (node (fields m) cs) = finish (validate_children cs m)
  validate (node (failed e) cs) = stopped e

  pub validate_children : {E : Type 0} → Children E → Assoc E → Assoc E
  validate_children end result = result
  validate_children (leaf key cs) result = validate_children cs result
  validate_children (child key s cs) result =
      validate_children cs (add_outcome key (validate s) result)
