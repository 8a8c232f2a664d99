-- ===== src/Observable/Model/Reads/Fresh.antt =====
-- observable/controllers/model.go: Value of a struct or a map gives what the key has now.
use zugoui.Prelude.{
  ℕ, Bool, Text, text_eq, List, [], ◌∷◌, lookup, without, lookup-without, true, false, Option, none,
  some, ◌≡◌, inl, inr, refl, sym, ap, ◌∙◌, subst, Bool-cases,
}
use zugoui.Prelude.Int.{ℤ}
use zugoui.Observable.Model.{Body, Model, set_key, drop_source, start}
use zugoui.Observable.Model.Reads.{
  Read, endless, absent, source, plain, found, model_for, read_of, from_cache, value, release,
}
use zugoui.Observable.Model.Reads.Cached.{IsFresh, value_fresh, value-IsFresh}
use zugoui.Observable.Model.Reads.Found.{
  IsKeyed, without_other, touched-IsKeyed, set_body-sources, set_body-found, set_body-same,
}

-- A read of a key, a write of a key, or Release.
pub data Op (V : Type 0) : Type 0 where
  reads : Text → Op V
  sets : Text → Option V → Op V
  releases : Op V

some-inj : {A : Type 0} → {x y : A} → some x ≡ some y → x ≡ y
some-inj e = cc

module _ {S V : Type 0} (of_int : ℤ → V) (capacity : List V → ℕ) (zero_elem : V) (is_nil : V → Bool)
    (source_of : Text → V → Option S) where
  abbrev Fresh : Model S V → Type 0
  Fresh m = IsFresh of_int capacity zero_elem is_nil source_of m

  module _ (zero_field : Text → V) where
    set_key-sources :
        (key : Text) (v : Option V) (m : Model S V)
        → IsKeyed m.body
        → let m' = (set_key of_int zero_elem zero_field key v m).model in
          (m'.sources ≡ without key m.sources) × IsKeyed m'.body
    unfolding set_key start drop_source
    set_key-sources key v m k =
        set_body-sources of_int capacity zero_elem zero_field m.body key v _ refl k

    set_key-IsFresh :
        (key : Text) (v : Option V) (m : Model S V)
        → Fresh m
        → IsKeyed m.body
        → Fresh (set_key of_int zero_elem zero_field key v m).model
    set_key-IsFresh key v m f k j s h = elim (Bool-cases (text_eq key j)) [
      | inl t ↦ let gone = kept_by t in absurd cc
      | inr n ↦
          ap (read_of of_int capacity zero_elem is_nil source_of j) (found_by n) ∙ f j s (kept_or n)
    ]
      where
        left : lookup j (without key m.sources) ≡ some s
        left = ap (lookup j) (sym (set_key-sources key v m k).0) ∙ h

        kept_by : text_eq key j ≡ true → none ≡ some s
        kept_by t = sym (rw (lookup-without key j m.sources, t) refl) ∙ left

        kept_or : text_eq key j ≡ false → lookup j m.sources ≡ some s
        kept_or n = sym (without_other key j m.sources n) ∙ left

        found_by :
            text_eq key j ≡ false
            → found of_int capacity zero_elem j
                (set_key of_int zero_elem zero_field key v m).model.body
              ≡ found of_int capacity zero_elem j m.body
        found_by n =
            unfold set_key start drop_source in
            set_body-found of_int capacity zero_elem zero_field m.body key j v _ refl n k

    -- the model that a read leaves, if it ends
    unfoldable pub ended : Read S V × Model S V → Option (Model S V)
    ended (endless, m) = none
    ended (_, m) = some m

    unfoldable pub apply : Op V → Model S V → Option (Model S V)
    unfolding value set_key release ended
    apply (reads key) m = ended (value of_int capacity zero_elem is_nil source_of key m)
    apply (sets key v) m = some (set_key of_int zero_elem zero_field key v m).model
    apply releases m = some (release m).0

    -- the model after all operations, if each ends
    unfoldable pub run : List (Op V) → Model S V → Option (Model S V)
    unfolding apply
    run [] m = some m
    run (op ∷ ops) m = elim (apply op m) [ none ↦ none | some m' ↦ run ops m' ]

    value-IsKeyed :
        (key : Text) (m : Model S V)
        → IsKeyed m.body
        → IsKeyed (value of_int capacity zero_elem is_nil source_of key m).1.body
    unfolding value from_cache model_for
    value-IsKeyed key m k = by_cache (lookup key m.sources)
      where
        by_cache :
            (x : Option S)
            → IsKeyed (from_cache of_int capacity zero_elem is_nil source_of key x m).1.body
        by_cache none = touched-IsKeyed of_int capacity zero_elem key m.body k
        by_cache (some s) = k

    abbrev IsSound : Model S V → Type 0
    IsSound m = Fresh m × IsKeyed m.body

    ended-IsSound :
        (r : Read S V) (m m' : Model S V) → IsSound m → ended (r, m) ≡ some m' → IsSound m'
    unfolding ended
    ended-IsSound endless m m' h e = cc
    ended-IsSound absent m m' h e = subst IsSound (some-inj e) h
    ended-IsSound (source s) m m' h e = subst IsSound (some-inj e) h
    ended-IsSound (plain v) m m' h e = subst IsSound (some-inj e) h

    apply-IsSound : (op : Op V) (m m' : Model S V) → IsSound m → apply op m ≡ some m' → IsSound m'
    unfolding apply release lookup
    apply-IsSound (reads key) m m' (f, k) e =
        ended-IsSound _ _ m'
          (value-IsFresh of_int capacity zero_elem is_nil source_of key m f, value-IsKeyed key m k)
          e
    apply-IsSound (sets key v) m m' (f, k) e =
        subst IsSound (some-inj e) (set_key-IsFresh key v m f k, (set_key-sources key v m k).1)
    apply-IsSound releases m m' (f, k) e = subst IsSound (some-inj e) (λ j s h. absurd cc, k)

    run-IsSound :
        (ops : List (Op V)) (m m' : Model S V) → IsSound m → run ops m ≡ some m' → IsSound m'
    unfolding run
    run-IsSound [] m m' h e = subst IsSound (some-inj e) h
    run-IsSound (op ∷ ops) m m' h e =
        by_step (λ m2 h' e'. run-IsSound ops m2 m' h' e') (apply op m) refl e
      where
        by_step :
            ((m2 : Model S V) → IsSound m2 → run ops m2 ≡ some m' → IsSound m')
            → (x : Option (Model S V)) → apply op m ≡ x
            → elim x [ none ↦ none | some m2 ↦ run ops m2 ] ≡ some m'
            → IsSound m'
        by_step ih none q r = absurd cc
        by_step ih (some m2) q r = ih m2 (apply-IsSound op m m2 h q) r

    -- the value that a key gets by SetValue, and the sub-sources that are left
    set_key-found :
        (key : Text) (v w : V) (m : Model S V)
        → found of_int capacity zero_elem key m.body ≡ some w
        → IsKeyed m.body
        → found of_int capacity zero_elem key
            (set_key of_int zero_elem zero_field key (some v) m).model.body
          ≡ some v
    unfolding set_key start drop_source
    set_key-found key v w m h k =
        (set_body-same of_int capacity zero_elem zero_field m.body key v w _ h k).0

    -- After any reads, writes by SetValue and releases of a new model of a struct or a map that all
    -- end, Value of a key that it has gives the value that the key has now: as a sub-source of this
    -- value where it gets one, and for a nil interface it never ends. After SetValue of another
    -- value it gives that one so. Values are such that a sub-source shares no place with its model.
    pub value-run :
        (b : Body V) (ops : List (Op V)) (m : Model S V) (key : Text) (v w : V)
        → IsKeyed b
        → run ops (record { body = b; sources = [] }) ≡ some m
        → found of_int capacity zero_elem key m.body ≡ some w
        → ((value of_int capacity zero_elem is_nil source_of key m).0
            ≡ read_of of_int capacity zero_elem is_nil source_of key (some w))
          × ((value of_int capacity zero_elem is_nil source_of key
                (set_key of_int zero_elem zero_field key (some v) m).model).0
              ≡ read_of of_int capacity zero_elem is_nil source_of key (some v))
    unfolding lookup
    value-run b ops m key v w k ran h =
        let (f, k') =
          run-IsSound ops (record { body = b; sources = [] }) m (λ j s e. absurd cc, k) ran in
        (
          value_fresh of_int capacity zero_elem is_nil source_of key m f
              ∙ ap (read_of of_int capacity zero_elem is_nil source_of key) h,
          value_fresh of_int capacity zero_elem is_nil source_of key _
                (set_key-IsFresh key (some v) m f k')
              ∙ ap (read_of of_int capacity zero_elem is_nil source_of key)
                  (set_key-found key v w m h k'),
        )
