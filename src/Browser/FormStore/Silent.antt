-- ===== src/Browser/FormStore/Silent.antt =====
-- browser/formstore.go: the getters change only where their subscribers are called.
use zugoui.Prelude.{
  ℕ, zero, suc, Text, List, [], ◌∷◌, ◌++◌, Assoc, Bool, true, false, Option, none, some, ◌≡◌, ◌≢◌,
  append-nil, refl, sym, ap, ◌∙◌, Bool-cases, inl, inr, if◌then◌else◌,
}
use zugoui.JsonPath.{Ref, Result, ok, err, key_path}
use zugoui.Observable.Validate.{validate}
use zugoui.Browser.Session.{Subscribers, add, remove, clear, all}
use zugoui.Browser.FormStore.{
  Outside, FormStore, SetResult, ErrorObject, Input, attach, becomes, subscribe, unsubscribe,
  subscribe_errors, unsubscribe_errors, read_snapshot, read_errors, set, release, errors_of,
  keep_errors, update_errors, changed, do_attach, notified, model_set, snapshot_of, refreshed,
  get_snapshot, set_field, set_at, set_in, do_set, become, step,
}
use zugoui.Browser.FormStore.Fresh.{IsQuiet}

module _ {M B V W P Q C : Type 0} (o : Outside M B V W P Q) where
  -- What both getters return.
  abbrev pub reads : FormStore C M B V P Q → Option (ℕ × V) × (ℕ × Assoc (ErrorObject Q))
  reads f = ((get_snapshot o f).0, f.errors)

  -- Either a subscriber was called, or the getters return what they did.
  abbrev Silent : FormStore C M B V P Q → FormStore C M B V P Q × List C → Type 0
  Silent f r = r.1 ≡ [] → reads r.0 ≡ reads f

  changed-calls :
      (m : M) (f : FormStore C M B V P Q) (xs : List C) (c : ℕ × C) (cs : List (ℕ × C))
      → f.subs.cbs ≡ c ∷ cs
      → (changed o m f).1 ++ xs ≢ []
  unfolding changed update_errors keep_errors all
  changed-calls m f xs c cs h =
      elim (Bool-cases (o.deep_equal (errors_of o f.typ (validate (o.tree m))) f.last_errs)) [
        | inl t ↦ rw (t, h) (λ e. cc)
        | inr n ↦ rw (n, h) (λ e. cc)
      ]

  -- what is there when no snapshot has to be made
  reads_fresh : (f : FormStore C M B V P Q) → f.stale ≡ false → (get_snapshot o f).0 ≡ f.snapshot
  unfolding get_snapshot refreshed
  reads_fresh f e = by_source f.source
    where
      by_source : (x : Option M) → (refreshed o x f).snapshot ≡ f.snapshot
      by_source none = refl
      by_source (some m) = rw e refl

  get_snapshot-twice : (f : FormStore C M B V P Q) → reads (get_snapshot o f).1 ≡ reads f
  unfolding get_snapshot refreshed snapshot_of
  get_snapshot-twice f = by_source f.source refl
    where
      made : (x : Option V) → reads (snapshot_of o x f) ≡ ((snapshot_of o x f).snapshot, f.errors)
      made none = ap (λ y. (y, f.errors)) (reads_fresh (snapshot_of o none f) refl)
      made (some v) = ap (λ y. (y, f.errors)) (reads_fresh (snapshot_of o (some v) f) refl)

      by_test :
          (b : Bool) (m : M)
          → f.source ≡ some m
          → f.stale ≡ b
          → reads (if b then snapshot_of o (o.encoded m) f else f)
            ≡ ((if b then snapshot_of o (o.encoded m) f else f).snapshot, f.errors)
      by_test true m s e = made (o.encoded m)
      by_test false m s e = ap (λ y. (y, f.errors)) (reads_fresh f e)

      by_source :
          (x : Option M)
          → f.source ≡ x
          → reads (refreshed o x f) ≡ ((refreshed o x f).snapshot, f.errors)
      by_source none s = rw s refl
      by_source (some m) s = by_test f.stale m s refl

  -- other functions of the page, or other observers
  same_page :
      (subs err_subs : Subscribers C) (w : Bool) (f : FormStore C M B V P Q)
      → reads (record f { subs = subs; err_subs = err_subs; watching = w }) ≡ reads f
  unfolding get_snapshot refreshed snapshot_of
  same_page subs err_subs w f = ap (λ y. (y, f.errors)) (by_source f.source)
    where
      f' : FormStore C M B V P Q
      f' = record f { subs = subs; err_subs = err_subs; watching = w }

      made : (x : Option V) → (snapshot_of o x f').snapshot ≡ (snapshot_of o x f).snapshot
      made none = refl
      made (some v) = refl

      by_test :
          (b : Bool) (x : Option V)
          → (if b then snapshot_of o x f' else f').snapshot
            ≡ (if b then snapshot_of o x f else f).snapshot
      by_test true x = made x
      by_test false x = refl

      by_source : (x : Option M) → (refreshed o x f').snapshot ≡ (refreshed o x f).snapshot
      by_source none = refl
      by_source (some m) = by_test f.stale (o.encoded m)

  -- a model that is the same again
  same_reads :
      (m m' : M) (f : FormStore C M B V P Q)
      → f.source ≡ some m
      → m' ≡ m
      → reads (record f { source = some m' }) ≡ reads f
  unfolding get_snapshot
  same_reads m m' f at e =
      ap (λ (x : Option M). ((refreshed o x (record f { source = x })).snapshot, f.errors))
        (ap some e ∙ sym at)

  model_set-Silent :
      (n : ℕ) (m m' : M) (f : FormStore C M B V P Q) (c : ℕ × C) (cs : List (ℕ × C))
      → f.subs.cbs ≡ c ∷ cs
      → f.watching ≡ true
      → f.source ≡ some m
      → (n ≡ 0 → m' ≡ m)
      → Silent f (model_set o n m' f)
  unfolding model_set notified
  model_set-Silent n m m' f c cs h w at still = by_test f.watching w n still
    where
      f' : FormStore C M B V P Q
      f' = record f { source = some m' }

      by_test :
          (b : Bool)
          → b ≡ true
          → (n : ℕ) → (n ≡ 0 → m' ≡ m)
          → Silent f (if b then notified o n m' f' else (f', []))
      by_test false w n still e = absurd cc
      by_test true w zero still e = same_reads m m' f at (still refl)
      by_test true w (suc n) still e = absurd (changed-calls m' f' _ c cs h e)

  become-Silent :
      (x : Option M) (m : M) (f : FormStore C M B V P Q) (c : ℕ × C) (cs : List (ℕ × C))
      → f.subs.cbs ≡ c ∷ cs
      → f.watching ≡ true
      → f.source ≡ x
      → Silent f (become o x m f)
  unfolding become
  become-Silent none m f c cs h w at e = refl
  become-Silent (some m0) m f c cs h w at e =
      model_set-Silent 1 m0 m f c cs h w at (λ e. absurd cc) e

  do_set-Silent :
      (path : Text) (v : V) (f : FormStore C M B V P Q) (c : ℕ × C) (cs : List (ℕ × C))
      → IsQuiet o
      → f.subs.cbs ≡ c ∷ cs
      → f.watching ≡ true
      → Silent f ((do_set o path v f).1, (do_set o path v f).2)
  unfolding do_set set_in set_at set_field
  do_set-Silent path v f c cs quiet h w = by_source f.source refl
    where
      Still : SetResult × FormStore C M B V P Q × List C → Type 0
      Still r = Silent f (r.1, r.2)

      field : (k : Text) (w : Option W) (m : M) → f.source ≡ some m → Still (set_field o k w m f)
      field k none m at e = refl
      field k (some x) m at e' =
          let r = o.write k x m in
          model_set-Silent r.2 m r.1 f c cs h w at
            (λ e. quiet k x m r.1 r.0 (ap (λ (n : ℕ). (r.0, r.1, n)) e)) e'

      by_path : (r : Result (Text × Ref B)) (m : M) → f.source ≡ some m → Still (set_at o r v m f)
      by_path (err e) m at e' = refl
      by_path (ok (k, t)) m at e' = field k (o.fit t v) m at e'

      by_source : (x : Option M) → f.source ≡ x → Still (set_in o x path v f)
      by_source none at e = refl
      by_source (some m) at e = by_path (key_path o.shape f.typ path) m at e

  -- While the store watches its model and the page has subscribed to the snapshot, a call or a
  -- change of the model that calls no function of the page leaves the objects that both getters
  -- return. Writes that notify nobody have to leave the model as it is.
  pub step-Silent :
      (i : Input C M V) (f f' : FormStore C M B V P Q) (c : ℕ × C) (cs : List (ℕ × C))
      → IsQuiet o
      → f.subs.cbs ≡ c ∷ cs
      → f.watching ≡ true
      → step o i f ≡ (f', [])
      → reads f' ≡ reads f
  unfolding step do_attach
  step-Silent i f f' c cs quiet h w e = ap reads (sym (ap fst e)) ∙ by_input i (ap snd e)
    where
      fst : FormStore C M B V P Q × List C → FormStore C M B V P Q
      fst r = r.0

      snd : FormStore C M B V P Q × List C → List C
      snd r = r.1

      by_input : (i : Input C M V) → Silent f (step o i f)
      by_input (attach m) e = absurd (
          changed-calls m (record f { source = some m; typ = some (o.type_of m); watching = true })
            [] c cs h (append-nil _ ∙ e))
      by_input (becomes m) e = become-Silent f.source m f c cs h w refl e
      by_input (subscribe cb) e = same_page (add cb f.subs) f.err_subs f.watching f
      by_input (unsubscribe id) e = same_page (remove id f.subs) f.err_subs f.watching f
      by_input (subscribe_errors cb) e = same_page f.subs (add cb f.err_subs) f.watching f
      by_input (unsubscribe_errors id) e = same_page f.subs (remove id f.err_subs) f.watching f
      by_input read_snapshot e = get_snapshot-twice f
      by_input read_errors e = refl
      by_input (set path v) e = do_set-Silent path v f c cs quiet h w e
      by_input release e = same_page (clear f.subs) (clear f.err_subs) false f
