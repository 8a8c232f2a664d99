-- ===== src/Browser/FormStore/Fresh.antt =====
-- browser/formstore.go: what the page reads is what the model is.
use zugoui.Prelude.{
  ℕ, zero, suc, Text, text_eq, List, [], ◌∷◌, Assoc, lookup, Bool, true, false, Option, none, some,
  ◌≡◌, ◌⊎◌, inl, inr, refl, sym, ap, ◌∙◌, subst, Bool-cases, if◌then◌else◌,
}
use mathlib.Core.Option
use zugoui.JsonPath.{Ref, Result, ok, err, key_path}
use zugoui.Observable.KeyPath
use zugoui.Observable.Validate.{validate}
use zugoui.Wsrpc.Failure.{RpcError}
use zugoui.Browser.FormStore.{
  Outside, FormStore, Input, attach, becomes, subscribe, unsubscribe, subscribe_errors,
  unsubscribe_errors, read_snapshot, read_errors, set, release, new_form_store, errors_of,
  object_of, error_object, keep_errors, update_errors, changed, do_attach, notified, model_set,
  snapshot_of, refreshed, get_snapshot, set_field, set_at, set_in, do_set, do_release, become, step,
  run,
}

module _ {M B V W P Q : Type 0} (o : Outside M B V W P Q) where
  -- What DeepEqual finds equal has the same entries.
  abbrev pub IsDeepEqual : Type 0
  IsDeepEqual =
      (a b : Assoc (RpcError P)) (k : Text) → o.deep_equal a b ≡ true → lookup k a ≡ lookup k b

  -- A write that notifies nobody leaves the model as it is.
  abbrev pub IsQuiet : Type 0
  IsQuiet =
      (k : Text) (w : W) (m m' : M) (r : KeyPath.Outcome) → o.write k w m ≡ (r, m', 0) → m' ≡ m

  pub lookup-object_of :
      (k : Text) (errs : Assoc (RpcError P))
      → lookup k (object_of o errs) ≡ Option.map (error_object o) (lookup k errs)
  unfolding object_of lookup
  lookup-object_of k [] = refl
  lookup-object_of k ((j, e) ∷ errs) = elim (Bool-cases (text_eq j k)) [
    | inl t ↦ rw t refl
    | inr n ↦ rw n (lookup-object_of k errs)
  ]

module _ {M B V W P Q C : Type 0} (o : Outside M B V W P Q) where
  -- The errors are those of the model, by path.
  abbrev Current : FormStore C M B V P Q → M → Type 0
  Current f m =
      (k : Text) → lookup k f.last_errs ≡ lookup k (errors_of o f.typ (validate (o.tree m)))

  -- A snapshot of the model is there, or is made when the page asks for it.
  abbrev Shown : FormStore C M B V P Q → M → Type 0
  Shown f m =
      (v : V) → o.encoded m ≡ some v → (f.stale ≡ true) ⊎ ((n : ℕ) × (f.snapshot ≡ some (n, v)))

  record IsFresh (f : FormStore C M B V P Q) : Type 0 where
    objects : f.errors.1 ≡ object_of o f.last_errs
    current : (m : M) → f.watching ≡ true → f.source ≡ some m → Current f m
    shown : (m : M) → f.watching ≡ true → f.source ≡ some m → Shown f m

  module _ (sound : IsDeepEqual o) where
    changed-IsFresh :
        (m : M) (f : FormStore C M B V P Q)
        → f.source ≡ some m
        → f.errors.1 ≡ object_of o f.last_errs
        → IsFresh (changed o m f).0 × ((changed o m f).0.source ≡ some m)
    unfolding changed update_errors keep_errors
    changed-IsFresh m f at h = by_test (o.deep_equal (errs m) f.last_errs) refl
      where
        errs : M → Assoc (RpcError P)
        errs m = errors_of o f.typ (validate (o.tree m))

        errs_of :
            (m' : M) (l : Assoc (RpcError P))
            → some m ≡ some m'
            → ((k : Text) → lookup k l ≡ lookup k (errs m))
            → (k : Text) → lookup k l ≡ lookup k (errs m')
        errs_of m' l e g k =
            let e' : m ≡ m' = cc in subst (λ x. lookup k l ≡ lookup k (errs x)) e' (g k)

        by_test :
            (b : Bool)
            → o.deep_equal (errs m) f.last_errs ≡ b
            → IsFresh (changed o m f).0 × ((changed o m f).0.source ≡ some m)
        by_test true t = rw t (
          record {
            objects = h;
            current = λ m' w s k. errs_of m' f.last_errs (sym at ∙ s) (λ j. sym (sound _ _ j t)) k;
            shown = λ m' w s v e. inl refl;
          },
          at,
        )
        by_test false t = rw t (
          record {
            objects = refl;
            current = λ m' w s k. errs_of m' (errs m) (sym at ∙ s) (λ j. refl) k;
            shown = λ m' w s v e. inl refl;
          },
          at,
        )

    notified-IsFresh :
        (n : ℕ) (m : M) (f : FormStore C M B V P Q)
        → f.source ≡ some m
        → IsFresh f
        → IsFresh (notified o n m f).0
    unfolding notified
    notified-IsFresh zero m f at h = h
    notified-IsFresh (suc n) m f at h =
        let (h', at') = changed-IsFresh m f at h.objects in
        notified-IsFresh n m (changed o m f).0 at' h'

    do_attach-IsFresh :
        (m : M) (f : FormStore C M B V P Q) → IsFresh f → IsFresh (do_attach o m f).0
    unfolding do_attach
    do_attach-IsFresh m f h =
        (changed-IsFresh m (record f { source = some m; typ = some (o.type_of m); watching = true })
          refl h.objects).0

    get_snapshot-IsFresh : (f : FormStore C M B V P Q) → IsFresh f → IsFresh (get_snapshot o f).1
    unfolding get_snapshot refreshed snapshot_of
    get_snapshot-IsFresh f h = by_source f.source refl
      where
        made :
            (x : Option V) (m : M)
            → f.source ≡ some m
            → o.encoded m ≡ x
            → IsFresh (snapshot_of o x f)
        made none m s e = record {
          objects = h.objects;
          current = h.current;
          shown = λ m' w s' v e'. let q : m ≡ m' = cc in cc;
        }
        made (some v) m s e = record {
          objects = h.objects;
          current = h.current;
          shown = λ m' w s' v' e'.
              let q : m ≡ m' = cc in let p : v ≡ v' = cc in inr (f.objects, rw p refl);
        }

        by_test :
            (b : Bool) (m : M)
            → f.source ≡ some m
            → IsFresh (if b then snapshot_of o (o.encoded m) f else f)
        by_test true m s = made (o.encoded m) m s refl
        by_test false m s = h

        by_source : (x : Option M) → f.source ≡ x → IsFresh (refreshed o x f)
        by_source none s = h
        by_source (some m) s = by_test f.stale m s

  module _ (sound : IsDeepEqual o) (quiet : IsQuiet o) where
    same_model :
        (m m' : M) (f : FormStore C M B V P Q)
        → f.source ≡ some m
        → m' ≡ m
        → IsFresh f
        → IsFresh (record f { source = some m' })
    same_model m m' f at e h = record {
      objects = h.objects;
      current = λ x w s. h.current x w (at ∙ ap some (sym e) ∙ s);
      shown = λ x w s. h.shown x w (at ∙ ap some (sym e) ∙ s);
    }

    -- the model is `m'` with `n` notifications, and the old one with none
    model_set-IsFresh :
        (n : ℕ) (m m' : M) (f : FormStore C M B V P Q)
        → f.source ≡ some m
        → (n ≡ 0 → m' ≡ m)
        → IsFresh f
        → IsFresh (model_set o n m' f).0
    unfolding model_set notified
    model_set-IsFresh n m m' f at still h = by_test f.watching refl n still
      where
        f' : FormStore C M B V P Q
        f' = record f { source = some m' }

        by_test :
            (b : Bool)
            → f.watching ≡ b
            → (n : ℕ) → (n ≡ 0 → m' ≡ m)
            → IsFresh (if b then notified o n m' f' else (f', [])).0
        by_test true w zero still = same_model m m' f at (still refl) h
        by_test true w (suc n) still =
            let (h', at') = changed-IsFresh sound m' f' refl h.objects in
            notified-IsFresh sound n m' (changed o m' f').0 at' h'
        by_test false w n still = record {
          objects = h.objects;
          current = λ x w' s. absurd cc;
          shown = λ x w' s. absurd cc;
        }

    become-IsFresh :
        (x : Option M) (m : M) (f : FormStore C M B V P Q)
        → f.source ≡ x
        → IsFresh f
        → IsFresh (become o x m f).0
    unfolding become
    become-IsFresh none m f at h = h
    become-IsFresh (some m0) m f at h = model_set-IsFresh 1 m0 m f at (λ e. absurd cc) h

    do_set-IsFresh :
        (path : Text) (v : V) (f : FormStore C M B V P Q)
        → IsFresh f
        → IsFresh (do_set o path v f).1
    unfolding do_set set_in set_at set_field
    do_set-IsFresh path v f h = by_source f.source refl
      where
        field :
            (k : Text) (w : Option W) (m : M) → f.source ≡ some m → IsFresh (set_field o k w m f).1
        field k none m at = h
        field k (some w) m at =
            let r = o.write k w m in
            model_set-IsFresh r.2 m r.1 f at
              (λ e. quiet k w m r.1 r.0 (ap (λ (n : ℕ). (r.0, r.1, n)) e)) h

        by_path :
            (r : Result (Text × Ref B)) (m : M) → f.source ≡ some m → IsFresh (set_at o r v m f).1
        by_path (err e) m at = h
        by_path (ok (k, t)) m at = field k (o.fit t v) m at

        by_source : (x : Option M) → f.source ≡ x → IsFresh (set_in o x path v f).1
        by_source none at = h
        by_source (some m) at = by_path (key_path o.shape f.typ path) m at

    step-IsFresh :
        (i : Input C M V) (f : FormStore C M B V P Q) → IsFresh f → IsFresh (step o i f).0
    unfolding step do_release
    step-IsFresh (attach m) f h = do_attach-IsFresh sound m f h
    step-IsFresh (becomes m) f h = become-IsFresh f.source m f refl h
    step-IsFresh (subscribe cb) f h = record {
      objects = h.objects;
      current = h.current;
      shown = h.shown;
    }
    step-IsFresh (unsubscribe id) f h = record {
      objects = h.objects;
      current = h.current;
      shown = h.shown;
    }
    step-IsFresh (subscribe_errors cb) f h = record {
      objects = h.objects;
      current = h.current;
      shown = h.shown;
    }
    step-IsFresh (unsubscribe_errors id) f h = record {
      objects = h.objects;
      current = h.current;
      shown = h.shown;
    }
    step-IsFresh read_snapshot f h = get_snapshot-IsFresh sound f h
    step-IsFresh read_errors f h = h
    step-IsFresh (set path v) f h = do_set-IsFresh path v f h
    step-IsFresh release f h = record {
      objects = h.objects;
      current = λ x w s. absurd cc;
      shown = λ x w s. absurd cc;
    }

    run-IsFresh :
        (is : List (Input C M V)) (f : FormStore C M B V P Q) → IsFresh f → IsFresh (run o is f)
    unfolding run
    run-IsFresh [] f h = h
    run-IsFresh (i ∷ is) f h = run-IsFresh is (step o i f).0 (step-IsFresh i f h)

    new_form_store-IsFresh : IsFresh new_form_store
    unfolding new_form_store object_of
    new_form_store-IsFresh = record {
      objects = refl;
      current = λ m w s. absurd cc;
      shown = λ m w s. absurd cc;
    }

    get_snapshot-Shown :
        (m : M) (v : V) (f : FormStore C M B V P Q)
        → f.source ≡ some m
        → o.encoded m ≡ some v
        → (f.stale ≡ true) ⊎ ((n : ℕ) × (f.snapshot ≡ some (n, v)))
        → (n : ℕ) × ((get_snapshot o f).0 ≡ some (n, v))
    unfolding get_snapshot refreshed snapshot_of
    get_snapshot-Shown m v f at e (inl t) = (f.objects, rw (at, t, e) refl)
    get_snapshot-Shown m v f at e (inr (n, t)) = elim (Bool-cases f.stale) [
      | inl b ↦ (f.objects, rw (at, b, e) refl)
      | inr b ↦ (n, rw (at, b) t)
    ]

    pub run-errors :
        (is : List (Input C M V)) (m : M) (k : Text)
        → (run o {C = C} is new_form_store).watching ≡ true
        → (run o {C = C} is new_form_store).source ≡ some m
        → let f = run o {C = C} is new_form_store in
          lookup k f.errors.1
          ≡ Option.map (error_object o) (lookup k (errors_of o f.typ (validate (o.tree m))))
    run-errors is m k w at =
        let h = run-IsFresh is new_form_store new_form_store-IsFresh in
        let f : FormStore C M B V P Q = run o is new_form_store in
        ap (lookup k) h.objects
        ∙ lookup-object_of o k f.last_errs
        ∙ ap (Option.map (error_object o)) (h.current m w at k)

    -- After any calls, while the store watches a model, the page reads under each path the error
    -- that validation of this model gives the path, or none, and getSnapshot returns the model's
    -- JSON, where it has one. Writes that notify nobody have to leave the model as it is.
    pub run-Shows :
        (is : List (Input C M V)) (m : M) (v : V) (k : Text)
        → (run o {C = C} is new_form_store).watching ≡ true
        → (run o {C = C} is new_form_store).source ≡ some m
        → o.encoded m ≡ some v
        → let f = run o {C = C} is new_form_store in
          (lookup k f.errors.1
            ≡ Option.map (error_object o) (lookup k (errors_of o f.typ (validate (o.tree m)))))
          × ((n : ℕ) × ((get_snapshot o f).0 ≡ some (n, v)))
    run-Shows is m v k w at e =
        let h = run-IsFresh is new_form_store new_form_store-IsFresh in
        (run-errors is m k w at, get_snapshot-Shown m v _ at e (h.shown m w at v e))
