-- ===== src/Observable/Model/Reads/Found.antt =====
-- observable/controllers/model.go: what the keys of a struct or a map find after a read or a write.
use zugoui.Prelude.{
  ℕ, Text, text_eq, text_eq_iff, text_eq_refl, List, [], Assoc, lookup, insert, without,
  lookup-insert, lookup-without, false, Option, none, some, ◌≡◌, inl, inr, refl, ap, Bool-cases,
}
use zugoui.Prelude.Int.{ℤ}
use zugoui.Observable.Model.{
  Body, slice, array, mapping, nil_mapping, struct, single, Effect, set_body, set_field, put_for,
  put_entry, remove_for_body, push, with_body, or_zero,
}
use zugoui.Observable.Model.Reads.{present, touched_entry, found, touched}

-- A struct or a map.
abbrev pub IsKeyed : {V : Type 0} → Body V → Type 0
IsKeyed (mapping kvs) = Unit
IsKeyed nil_mapping = Unit
IsKeyed (struct fs) = Unit
IsKeyed _ = ⊥

module _ {V : Type 0} where
  -- whatever entry a map gets for a key, an entry of another key is as before
  present-insert :
      (z : V) (key j : Text) (kvs : Assoc V)
      → lookup key kvs ≡ none
      → present z (lookup j (insert key z kvs)) ≡ present z (lookup j kvs)
  unfolding present
  present-insert z key j kvs e = elim (Bool-cases (text_eq key j)) [
    | inl t ↦
        let same : key ≡ j = (text_eq_iff key j).0 t in
        rw (lookup-insert key j z kvs, t, ← same, e) refl
    | inr n ↦ rw (lookup-insert key j z kvs, n) refl
  ]

  insert_other :
      (key j : Text) (v : V) (kvs : Assoc V)
      → text_eq key j ≡ false
      → lookup j (insert key v kvs) ≡ lookup j kvs
  insert_other key j v kvs n = rw (lookup-insert key j v kvs, n) refl

  insert_same : (key : Text) (v : V) (kvs : Assoc V) → lookup key (insert key v kvs) ≡ some v
  insert_same key v kvs = rw (lookup-insert key key v kvs, text_eq_refl key) refl

  pub without_other :
      (key j : Text) (kvs : Assoc V)
      → text_eq key j ≡ false
      → lookup j (without key kvs) ≡ lookup j kvs
  without_other key j kvs n = rw (lookup-without key j kvs, n) refl

module _ {V : Type 0} (of_int : ℤ → V) (capacity : List V → ℕ) (zero_elem : V) where
  pub touched-IsKeyed :
      (key : Text) (b : Body V) → IsKeyed b → IsKeyed (touched of_int capacity zero_elem key b)
  unfolding touched
  touched-IsKeyed key (mapping kvs) h = tt
  touched-IsKeyed key nil_mapping h = tt
  touched-IsKeyed key (struct fs) h = tt
  touched-IsKeyed key _ h = absurd h

  pub found-touched :
      (key j : Text) (b : Body V)
      → found of_int capacity zero_elem j (touched of_int capacity zero_elem key b)
        ≡ found of_int capacity zero_elem j b
  unfolding found touched lookup present
  found-touched key j (mapping kvs) = by_entry (lookup key kvs) refl
    where
      by_entry :
          (x : Option V)
          → lookup key kvs ≡ x
          → some (present zero_elem (lookup j (touched_entry key zero_elem x kvs)))
            ≡ some (present zero_elem (lookup j kvs))
      by_entry none e = ap some (present-insert zero_elem key j kvs e)
      by_entry (some v) e = refl
  found-touched key j nil_mapping = elim (Bool-cases (text_eq key j)) [
    | inl t ↦ rw t refl
    | inr n ↦ rw n refl
  ]
  found-touched key j _ = refl

  module _ {S : Type 0} (zero_field : Text → V) where
    -- SetValue behind its release leaves the cache, and a struct or a map
    pub set_body-sources :
        (b : Body V) (key : Text) (v : Option V) (e : Effect S V)
        → e.model.body ≡ b
        → IsKeyed b
        → let m = (set_body of_int zero_elem zero_field b key v e).model in
          (m.sources ≡ e.model.sources) × IsKeyed m.body
    unfolding set_body set_field put_for remove_for_body push with_body
    set_body-sources (slice xs) key v e h k = absurd k
    set_body-sources (array xs) key v e h k = absurd k
    set_body-sources (single x) key v e h k = absurd k
    set_body-sources (mapping kvs) key none e h k = (refl, tt)
    set_body-sources (mapping kvs) key (some v) e h k = (refl, tt)
    set_body-sources nil_mapping key none e h k = rw h (refl, tt)
    set_body-sources nil_mapping key (some v) e h k = (refl, tt)
    set_body-sources (struct fs) key v e h k = by_field (lookup key fs)
      where
        by_field :
            (old : Option V)
            → let m = (set_field of_int zero_elem zero_field key v old fs e).model in
              (m.sources ≡ e.model.sources) × IsKeyed m.body
        by_field none = rw h (refl, tt)
        by_field (some old) = (refl, tt)

    -- it leaves the other keys as they are
    pub set_body-found :
        (b : Body V) (key j : Text) (v : Option V) (e : Effect S V)
        → e.model.body ≡ b
        → text_eq key j ≡ false
        → IsKeyed b
        → found of_int capacity zero_elem j
            (set_body of_int zero_elem zero_field b key v e).model.body
          ≡ found of_int capacity zero_elem j b
    unfolding set_body set_field put_for remove_for_body push with_body put_entry found lookup
        present
    set_body-found (slice xs) key j v e h n k = absurd k
    set_body-found (array xs) key j v e h n k = absurd k
    set_body-found (single x) key j v e h n k = absurd k
    set_body-found (mapping kvs) key j none e h n k =
        ap (λ x. some (present zero_elem x)) (without_other key j kvs n)
    set_body-found (mapping kvs) key j (some v) e h n k =
        ap (λ x. some (present zero_elem x)) (insert_other key j v kvs n)
    set_body-found nil_mapping key j none e h n k = rw h refl
    set_body-found nil_mapping key j (some v) e h n k =
        ap (λ x. some (present zero_elem x)) (insert_other key j v [] n)
    set_body-found (struct fs) key j v e h n k = by_field (lookup key fs)
      where
        by_field :
            (old : Option V)
            → found of_int capacity zero_elem j
                (set_field of_int zero_elem zero_field key v old fs e).model.body
              ≡ lookup j fs
        by_field none = rw h refl
        by_field (some old) = insert_other key j (or_zero (zero_field key) v) fs n

    -- and gives its own key the value
    pub set_body-same :
        (b : Body V) (key : Text) (v w : V) (e : Effect S V)
        → found of_int capacity zero_elem key b ≡ some w
        → IsKeyed b
        → let m = (set_body of_int zero_elem zero_field b key (some v) e).model in
          (found of_int capacity zero_elem key m.body ≡ some v) × (m.sources ≡ e.model.sources)
    unfolding set_body set_field put_for push with_body put_entry found present or_zero
    set_body-same (slice xs) key v w e h k = absurd k
    set_body-same (array xs) key v w e h k = absurd k
    set_body-same (single x) key v w e h k = absurd k
    set_body-same (mapping kvs) key v w e h k =
        (ap (λ x. some (present zero_elem x)) (insert_same key v kvs), refl)
    set_body-same nil_mapping key v w e h k =
        (ap (λ x. some (present zero_elem x)) (insert_same key v []), refl)
    set_body-same (struct fs) key v w e h k = rw h (insert_same key v fs, refl)
