-- ===== src/Observable/Model/Reads/Cached.antt =====
-- observable/controllers/model.go: the sub-sources that Value keeps are those of the values.
use zugoui.Prelude.{
  ℕ, Bool, Text, text_eq, text_eq_iff, List, lookup, lookup-insert, Option, none, some, ◌≡◌, inl,
  inr, refl, sym, ap, ◌∙◌, subst, Bool-cases,
}
use zugoui.Prelude.Int.{ℤ}
use zugoui.Observable.Model.{Model}
use zugoui.Observable.Model.Reads.{
  Read, endless, absent, source, plain, found, touched, model_for, read_of, kept, from_cache, value,
}
use zugoui.Observable.Model.Reads.Found.{found-touched}

module _ {S V : Type 0} (of_int : ℤ → V) (capacity : List V → ℕ) (zero_elem : V) (is_nil : V → Bool)
    (source_of : Text → V → Option S) where
  -- Each sub-source that is kept is the one that its key would get now.
  abbrev pub IsFresh : Model S V → Type 0
  IsFresh m =
      (j : Text) (s : S)
      → lookup j m.sources ≡ some s
      → read_of of_int capacity zero_elem is_nil source_of j
          (found of_int capacity zero_elem j m.body)
        ≡ source s

  pub value_fresh :
      (key : Text) (m : Model S V)
      → IsFresh m
      → (value of_int capacity zero_elem is_nil source_of key m).0
        ≡ read_of of_int capacity zero_elem is_nil source_of key
            (found of_int capacity zero_elem key m.body)
  unfolding value from_cache model_for
  value_fresh key m f = by_cache (lookup key m.sources) refl
    where
      by_cache :
          (x : Option S)
          → lookup key m.sources ≡ x
          → (from_cache of_int capacity zero_elem is_nil source_of key x m).0
            ≡ read_of of_int capacity zero_elem is_nil source_of key
                (found of_int capacity zero_elem key m.body)
      by_cache none e = refl
      by_cache (some s) e = sym (f key s e)

  pub value-IsFresh :
      (key : Text) (m : Model S V)
      → IsFresh m
      → IsFresh (value of_int capacity zero_elem is_nil source_of key m).1
  unfolding value from_cache model_for kept
  value-IsFresh key m f = by_cache (lookup key m.sources)
    where
      now : Text → Read S V
      now j =
          read_of of_int capacity zero_elem is_nil source_of j
            (found of_int capacity zero_elem j m.body)

      later :
          (j : Text)
          → read_of of_int capacity zero_elem is_nil source_of j
              (found of_int capacity zero_elem j (touched of_int capacity zero_elem key m.body))
            ≡ now j
      later j =
          ap (read_of of_int capacity zero_elem is_nil source_of j)
            (found-touched of_int capacity zero_elem key j m.body)

      keeping :
          (r : Read S V)
          → now key ≡ r
          → (j : Text) (s : S)
          → lookup j (kept of_int capacity zero_elem is_nil source_of key r m.sources) ≡ some s
          → now j ≡ source s
      keeping endless e j s h = f j s h
      keeping absent e j s h = f j s h
      keeping (plain v) e j s h = f j s h
      keeping (source s') e j s h = elim (Bool-cases (text_eq key j)) [
        | inl t ↦
            let same : some s' ≡ some s = rw (lookup-insert key j s' m.sources, t) at h in
            let s-same : s' ≡ s = cc in
            subst (λ x. now x ≡ source s) ((text_eq_iff key j).0 t) (e ∙ ap source s-same)
        | inr n ↦ f j s (rw (lookup-insert key j s' m.sources, n) at h)
      ]

      by_cache :
          (x : Option S) → IsFresh (from_cache of_int capacity zero_elem is_nil source_of key x m).1
      by_cache none j s h = later j ∙ keeping (now key) refl j s h
      by_cache (some s') j s h = f j s h
