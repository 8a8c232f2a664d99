-- ===== src/Browser/FormStore.antt =====
-- browser/formstore.go: the model of a form as the page sees it, and its errors.
--
-- A store follows a model, which is a state of a type `M` here. What the store asks of the model,
-- of reflect and of the page's conversions is a record, `Outside`. Objects that the page gets are
-- numbered in the order they are made, so two calls that return the same object are seen to. A step
-- returns the calls of the page's functions, in order; what the mutex guards, with the callbacks
-- after it, is one step. A map of errors is filled in the order of the fields that ValidateSource
-- returns.
pub mod Fresh
pub mod Silent
pub mod Fields
mod Tests
use zugoui.Prelude.{
  ℕ, zero, suc, ◌+◌, Text, List, [], ◌∷◌, ◌++◌, map, Assoc, insert, Bool, true, false, Option, none,
  some, if◌then◌else◌,
}
use zugoui.JsonPath.{Ref, Shape, StructField, PathError, Result, ok, err, key_path, from_key_path}
use zugoui.Observable.KeyPath
use zugoui.Observable.Validate.{Source, Outcome, pass, invalid, stopped, validate}
use zugoui.Wsrpc.Failure.{GoError, RpcError, rpc_error}
use zugoui.Browser.Session.{Subscribers, no_subscribers, add, remove, clear, all}

-- `B` are the nodes of the table of types, `V` the page's values, `W` Go's values of type any, `P`
-- the parameters of an error's code, and `Q` those that an error object shows.
pub record Outside (M B V W P Q : Type 0) : Type 0 where
  pub shape : B → Shape B
  pub promoted : List (StructField B) → Text → Option (StructField B)
  -- source.Model().Type()
  pub type_of : M → Ref B
  -- the source as ValidateSource walks it
  pub tree : M → Source (GoError P)
  -- the JSON of the model, as the page's JSON.parse reads it; `none` is an error of json.Marshal
  pub encoded : M → Option V
  -- jsglue.Set of a new value of the type
  pub fit : Ref B → V → Option W
  -- SetKeyPath: what it returns, the model then, and how often the source notifies its observers
  pub write : Text → W → M → KeyPath.Outcome × M × ℕ
  -- reflect.DeepEqual
  pub deep_equal : Assoc (RpcError P) → Assoc (RpcError P) → Bool
  -- the parameters as the page gets them; `none` for an empty map or one that it can't get
  pub shown_params : P → Option Q

-- what errorObject makes of an rpctypes.Error
pub record ErrorObject (Q : Type 0) : Type 0 where
  pub code : Text
  pub message : Text
  pub params : Option Q

-- `source` and `typ` are none until the form is bound, and `watching` says whether the store has a
-- PathObserver on the source. `objects` counts the objects made.
pub record FormStore (C M B V P Q : Type 0) : Type 0 where
  pub source : Option M
  pub typ : Option (Ref B)
  pub watching : Bool
  pub snapshot : Option (ℕ × V)
  pub stale : Bool
  pub errors : ℕ × Assoc (ErrorObject Q)
  pub last_errs : Assoc (RpcError P)
  pub subs : Subscribers C
  pub err_subs : Subscribers C
  pub objects : ℕ

-- What `set` returns: nil, or an error.
pub data SetResult : Type 0 where
  err_unbound : SetResult
  bad_path : PathError → SetResult
  unfit : SetResult
  wrote : KeyPath.Outcome → SetResult

-- The calls of a store. By `becomes` the source is a new model, and notifies its observers once.
pub data Input (C M V : Type 0) : Type 0 where
  attach : M → Input C M V
  becomes : M → Input C M V
  subscribe : C → Input C M V
  unsubscribe : ℕ → Input C M V
  subscribe_errors : C → Input C M V
  unsubscribe_errors : ℕ → Input C M V
  read_snapshot : Input C M V
  read_errors : Input C M V
  set : Text → V → Input C M V
  release : Input C M V

module _ {C M B V P Q : Type 0} where
  unfoldable pub new_form_store : FormStore C M B V P Q
  unfolding no_subscribers
  new_form_store = record {
    source = none;
    typ = none;
    watching = false;
    snapshot = none;
    stale = false;
    errors = (0, []);
    last_errs = [];
    subs = no_subscribers;
    err_subs = no_subscribers;
    objects = 1;
  }

module _ {M B V W P Q : Type 0} (o : Outside M B V W P Q) where
  open o use {shape, promoted, type_of, tree, encoded, fit, write, deep_equal, shown_params}

  shown_of : Option P → Option Q
  shown_of none = none
  shown_of (some p) = shown_params p

  unfoldable pub error_object : RpcError P → ErrorObject Q
  unfolding shown_of
  error_object e = record { code = e.code; message = e.message; params = shown_of e.params }

  -- for keyPath, err := range fields
  unfoldable pub add_errors :
      Option (Ref B) → Assoc (GoError P) → Assoc (RpcError P) → Assoc (RpcError P)
  add_errors t [] errs = errs
  add_errors t ((k, e) ∷ m) errs =
      add_errors t m (insert (from_key_path shape promoted t k) (rpc_error e) errs)

  unfoldable pub errors_of : Option (Ref B) → Outcome (GoError P) → Assoc (RpcError P)
  unfolding add_errors
  errors_of t pass = []
  errors_of t (invalid m) = add_errors t m []
  errors_of t (stopped e) = insert [] (rpc_error e) []

  unfoldable pub object_of : Assoc (RpcError P) → Assoc (ErrorObject Q)
  unfolding error_object
  object_of errs = map (λ r. (r.0, error_object r.1)) errs

  module _ {C : Type 0} where
    -- updateErrors behind its validation: whether the errors differ from the last ones
    unfoldable pub keep_errors :
        Assoc (RpcError P) → FormStore C M B V P Q → FormStore C M B V P Q × Bool
    unfolding object_of
    keep_errors errs f = if deep_equal errs f.last_errs then (f, false) else (
      record f { errors = (f.objects, object_of errs); last_errs = errs; objects = f.objects + 1 },
      true,
    )

    unfoldable pub update_errors : M → FormStore C M B V P Q → FormStore C M B V P Q × Bool
    unfolding keep_errors errors_of
    update_errors m f = keep_errors (errors_of f.typ (validate (tree m))) f

    -- changed, with the calls that it makes
    unfoldable pub changed : M → FormStore C M B V P Q → FormStore C M B V P Q × List C
    unfolding update_errors
    changed m f =
        let (f', differ) = update_errors m (record f { stale = true }) in
        (f', all f'.subs ++ (if differ then all f'.err_subs else []))

    unfoldable pub do_attach : M → FormStore C M B V P Q → FormStore C M B V P Q × List C
    unfolding changed
    do_attach m f =
        changed m (record f { source = some m; typ = some (type_of m); watching = true })

    -- the source is `m`, and notifies its observers `n` times
    unfoldable pub notified : ℕ → M → FormStore C M B V P Q → FormStore C M B V P Q × List C
    unfolding changed
    notified zero m f = (f, [])
    notified (suc n) m f =
        let (f', calls) = changed m f in let (f'', more) = notified n m f' in (f'', calls ++ more)

    unfoldable pub model_set : ℕ → M → FormStore C M B V P Q → FormStore C M B V P Q × List C
    unfolding notified
    model_set n m f =
        let f' = record f { source = some m } in if f.watching then notified n m f' else (f', [])

    snapshot_of : Option V → FormStore C M B V P Q → FormStore C M B V P Q
    snapshot_of none f = record f { stale = false }
    snapshot_of (some v) f = record f {
      snapshot = some (f.objects, v);
      stale = false;
      objects = f.objects + 1;
    }

    refreshed : Option M → FormStore C M B V P Q → FormStore C M B V P Q
    unfolding snapshot_of
    refreshed none f = f
    refreshed (some m) f = if f.stale then snapshot_of (encoded m) f else f

    -- getSnapshot
    unfoldable pub get_snapshot : FormStore C M B V P Q → Option (ℕ × V) × FormStore C M B V P Q
    unfolding refreshed
    get_snapshot f = let f' = refreshed f.source f in (f'.snapshot, f')

    set_field :
        Text → Option W → M → FormStore C M B V P Q → SetResult × FormStore C M B V P Q × List C
    unfolding model_set
    set_field k none m f = (unfit, f, [])
    set_field k (some w) m f =
        let (r, m', n) = write k w m in let (f', calls) = model_set n m' f in (wrote r, f', calls)

    set_at :
        Result (Text × Ref B)
        → V
        → M
        → FormStore C M B V P Q
        → SetResult × FormStore C M B V P Q × List C
    unfolding set_field
    set_at (err e) v m f = (bad_path e, f, [])
    set_at (ok (k, t)) v m f = set_field k (fit t v) m f

    set_in :
        Option M → Text → V → FormStore C M B V P Q → SetResult × FormStore C M B V P Q × List C
    unfolding set_at
    set_in none path v f = (err_unbound, f, [])
    set_in (some m) path v f = set_at (key_path shape f.typ path) v m f

    unfoldable pub do_set :
        Text → V → FormStore C M B V P Q → SetResult × FormStore C M B V P Q × List C
    unfolding set_in
    do_set path v f = set_in f.source path v f

    unfoldable pub do_release : FormStore C M B V P Q → FormStore C M B V P Q
    do_release f = record f { watching = false; subs = clear f.subs; err_subs = clear f.err_subs }

    become : Option M → M → FormStore C M B V P Q → FormStore C M B V P Q × List C
    unfolding model_set
    become none m f = (f, [])
    become (some _) m f = model_set 1 m f

    unfoldable pub step : Input C M V → FormStore C M B V P Q → FormStore C M B V P Q × List C
    unfolding do_attach become get_snapshot do_set do_release
    step (attach m) f = do_attach m f
    step (becomes m) f = become f.source m f
    step (subscribe cb) f = (record f { subs = add cb f.subs }, [])
    step (unsubscribe id) f = (record f { subs = remove id f.subs }, [])
    step (subscribe_errors cb) f = (record f { err_subs = add cb f.err_subs }, [])
    step (unsubscribe_errors id) f = (record f { err_subs = remove id f.err_subs }, [])
    step read_snapshot f = ((get_snapshot f).1, [])
    step read_errors f = (f, [])
    step (set path v) f = let (r, f', calls) = do_set path v f in (f', calls)
    step release f = (do_release f, [])

    unfoldable pub run : List (Input C M V) → FormStore C M B V P Q → FormStore C M B V P Q
    unfolding step
    run [] f = f
    run (i ∷ is) f = run is (step i f).0
