-- ===== src/Jsrpc/Form.antt =====
-- jsrpc/form.go: a form as the page's script sees it, by the ids of its elements.
--
-- The ids and the key paths that they are bound to come from ValueBindings.IDPaths; a map is a list
-- of its entries, in the order in which a loop meets them. The callbacks of the script are counted.

pub mod Shown
mod Tests
use zugoui.Prelude.{
  ℕ, Text, text_eq, List, [], ◌∷◌, ◌++◌, Assoc, lookup, insert, Option, none, some, length,
  if◌then◌else◌,
}
use zugoui.Observable.Validate.{Source, Outcome, pass, invalid, stopped, validate}
use zugoui.Observable.PathObserver.{Node, Kids, Watch, star, new_path_observer, write, deliver}

pub record Form : Type 0 where
  -- key path to ids
  pub fields : Assoc (List Text)
  -- id to key path
  pub keys : Assoc Text

unfoldable pub ids_of : Option (List Text) → List Text
ids_of none = []
ids_of (some ids) = ids

-- f.fields[key]
unfoldable pub ids_at : Text → Assoc (List Text) → List Text
unfolding ids_of lookup
ids_at key fields = ids_of (lookup key fields)

-- the loop of newForm
unfoldable pub add_ids : Assoc Text → Assoc (List Text) → Assoc (List Text)
unfolding ids_at insert
add_ids [] fields = fields
add_ids ((id, key) ∷ keys) fields = add_ids keys (insert key (ids_at key fields ++ id ∷ []) fields)

-- newForm
unfoldable pub new_form : Assoc Text → Form
unfolding add_ids
new_form keys = record { fields = add_ids keys []; keys = keys }

module _ {E : Type 0} where
  -- the loop over the ids of a key path
  unfoldable pub put_error : List Text → E → Assoc E → Assoc E
  unfolding insert
  put_error [] e result = result
  put_error (id ∷ ids) e result = put_error ids e (insert id e result)

  -- the loop over the errors
  unfoldable pub put_errors : Assoc (List Text) → Assoc E → Assoc E → Assoc E
  unfolding put_error ids_at
  put_errors fields [] result = result
  put_errors fields ((key, e) ∷ errs) result =
      put_errors fields errs (put_error (ids_at key fields) e result)

  unfoldable pub errors_from : Form → Outcome E → Assoc E
  unfolding put_errors
  errors_from f pass = []
  errors_from f (invalid errs) = put_errors (Form.fields f) errs []
  errors_from f (stopped e) = []

  -- errors: the object that the script gets, without the text and the type of an error
  unfoldable pub errors : Form → Source E → Assoc E
  unfolding errors_from validate
  errors f source = errors_from f (validate source)

key_or_empty : Option Text → Text
key_or_empty none = []
key_or_empty (some key) = key

module _ {V : Type 0} where
  -- getValue, from Value of the form's source
  unfoldable pub get_value : (Text → V) → Text → Form → V
  unfolding lookup key_or_empty
  get_value value id f = value (key_or_empty (lookup id (Form.keys f)))

  -- the loop of getSnapshot
  snapshot_loop : (Text → V) → Assoc Text → Assoc V → Assoc V
  unfolding insert
  snapshot_loop value [] result = result
  snapshot_loop value ((id, key) ∷ keys) result =
      snapshot_loop value keys (insert id (value key) result)

  -- getSnapshot
  unfoldable pub get_snapshot : (Text → V) → Form → Assoc V
  unfolding snapshot_loop
  get_snapshot value f = snapshot_loop value (Form.keys f) []

-- the key path that newSubscription observes
unfoldable pub subscribed_key : Text → Text
subscribed_key key = if text_eq key [] then star else key

module _ {V : Type 0} where
  -- newSubscription, on a source that holds `kids`
  unfoldable pub new_subscription : Text → Kids V → Watch
  unfolding new_path_observer subscribed_key
  new_subscription key kids = new_path_observer (subscribed_key key) kids

  -- subscription.SetValue: the calls of the callback for a change that leaves `kids`
  unfoldable pub called : List Text → Text → Node V → Kids V → Watch → ℕ
  unfolding deliver
  called ps key v kids w = length (deliver ps key v kids w).1
