-- ===== src/Observable/Transform/Measures.antt =====
-- observable/transform.go: how the registered transformers fit together.
use zugoui.Prelude.{
  ℕ, suc, List, length, ap, Text, text_eq, codes, [], ◌∷◌, Assoc, lookup, insert, All, Bool, true,
  false, some, ◌≡◌, refl, subst, arith, Bool-cases, inl, inr,
}
use zugoui.Jstypes.{
  Value, Values, Entries, absent, ref, string, bool, integer, float, named_integer, named_float,
  mapping, slice, array, struct, value, no_values, entry, no_entries,
}
use zugoui.Observable.Transform.{
  count_values, count_entries, BaseTransform, set_back, mutable, value_is_zero, values_are_zero,
  len_by_kind, len_of, transformers, new_transformer,
}

module _ {F : Type 0} where
  -- the elements and the entries of a list
  abbrev pub listed : List (Value F) → Values F
  listed [] = no_values
  listed (v ∷ vs) = value v (listed vs)

  abbrev pub mapped : List (Text × Value F) → Entries F
  mapped [] = no_entries
  mapped ((k, v) ∷ es) = entry k v (mapped es)

  -- no pointer, text, map, slice or array
  abbrev pub HasNoLength : Value F → Type 0
  HasNoLength (ref v) = ⊥
  HasNoLength (string t) = ⊥
  HasNoLength (mapping es) = ⊥
  HasNoLength (slice vs) = ⊥
  HasNoLength (array vs) = ⊥
  HasNoLength _ = Unit

module _ {F : Type 0} (zero_float : F → Bool) where
  -- What the value behind the pointers holds has so many parts.
  pub data Counts : Value F → ℕ → Type 0 where
    counts_ref : {v : Value F} {n : ℕ} → Counts v n → Counts (ref v) n
    counts_string : (t : Text) → Counts (string t) (length t)
    counts_mapping : (es : List (Text × Value F)) → Counts (mapping (mapped es)) (length es)
    counts_slice : (vs : List (Value F)) → Counts (slice (listed vs)) (length vs)
    counts_array :
        (vs : List (Value F))
        → values_are_zero zero_float (listed vs) ≡ false
        → Counts (array (listed vs)) (length vs)
    counts_blank :
        (vs : List (Value F))
        → values_are_zero zero_float (listed vs) ≡ true
        → Counts (array (listed vs)) 0
    counts_nothing : (v : Value F) → HasNoLength v → Counts v 0

  count_values-listed : (vs : List (Value F)) → count_values (listed vs) ≡ length vs
  unfolding count_values
  count_values-listed [] = refl
  count_values-listed (v ∷ vs) = ap suc (count_values-listed vs)

  count_entries-mapped : (es : List (Text × Value F)) → count_entries (mapped es) ≡ length es
  unfolding count_entries
  count_entries-mapped [] = refl
  count_entries-mapped ((k, v) ∷ es) = ap suc (count_entries-mapped es)

  len_of-HasNoLength : (v : Value F) → HasNoLength v → len_of zero_float v ≡ 0
  unfolding len_of len_by_kind value_is_zero
  len_of-HasNoLength (ref v) h = absurd h
  len_of-HasNoLength (string t) h = absurd h
  len_of-HasNoLength (mapping es) h = absurd h
  len_of-HasNoLength (slice vs) h = absurd h
  len_of-HasNoLength (array vs) h = absurd h
  len_of-HasNoLength (bool true) h = refl
  len_of-HasNoLength (bool false) h = refl
  len_of-HasNoLength (integer n) h = ground arith
  len_of-HasNoLength (float x) h = ground arith
  len_of-HasNoLength (named_integer n) h = ground arith
  len_of-HasNoLength (named_float x) h = ground arith
  len_of-HasNoLength (struct fs) h = ground arith
  len_of-HasNoLength _ h = refl

  -- len gives the number of bytes of a text, of entries of a map and of elements of a slice or an
  -- array behind any pointers, but 0 for an array that is the zero value, and 0 for every other
  -- value.
  pub len_of-Counts : (v : Value F) (n : ℕ) → Counts v n → len_of zero_float v ≡ n
  unfolding len_of len_by_kind value_is_zero
  len_of-Counts _ n (counts_ref c) = len_of-Counts _ n c
  len_of-Counts _ _ (counts_string []) = refl
  len_of-Counts _ _ (counts_string (b ∷ t)) = refl
  len_of-Counts _ _ (counts_mapping es) = count_entries-mapped es
  len_of-Counts _ _ (counts_slice vs) = count_values-listed vs
  len_of-Counts _ _ (counts_array vs e) = rw e (count_values-listed vs)
  len_of-Counts _ _ (counts_blank vs e) = rw e refl
  len_of-Counts _ _ (counts_nothing v h) = len_of-HasNoLength v h

module _ {V : Type 0} (P : V → Type 0) where
  All-insert :
      (k : Text) (v : V) (m : Assoc V) → P v → All (λ r. P r.1) m → All (λ r. P r.1) (insert k v m)
  unfolding insert
  All-insert k v [] p h = (p, tt)
  All-insert k v ((j, w) ∷ m) p (q, h) = elim (Bool-cases (text_eq j k)) [
    | inl t ↦ rw t (p, h)
    | inr n ↦ rw n (q, All-insert k v m p h)
  ]

  All-lookup : (k : Text) (v : V) (m : Assoc V) → All (λ r. P r.1) m → lookup k m ≡ some v → P v
  unfolding lookup
  All-lookup k v [] h e = cc
  All-lookup k v ((j, w) ∷ m) (q, h) e = elim (Bool-cases (text_eq j k)) [
    | inl t ↦ subst P (unsome (rw t at e)) q
    | inr n ↦ All-lookup k v m h (rw n at e)
  ]
    where
      unsome : some w ≡ some v → w ≡ v
      unsome x = cc

module _ {F : Type 0} (zero_float : F → Bool) where
  -- Every transformer that is registered is one way: it is not mutable, and Set gives nil.
  pub new_transformer-mutable :
      (name : Text) (b : BaseTransform F) (v : Value F)
      → new_transformer zero_float name ≡ some b
      → (mutable b ≡ false) × (set_back b v ≡ absent)
  unfolding new_transformer transformers mutable set_back
  new_transformer-mutable name b v h =
      let (fixed, unset) =
        All-lookup one_way name b (transformers zero_float)
          (All-insert one_way (codes "oneWay") _ _ (refl, λ w. refl)
            (All-insert one_way (codes "len") _ _ (refl, λ w. refl)
              (All-insert one_way (codes "isZero") _ _ (refl, λ w. refl)
                (All-insert one_way (codes "isNil") _ [] (refl, λ w. refl) tt))))
          h in
      (fixed, unset v)
    where
      one_way : BaseTransform F → Type 0
      one_way b = (mutable b ≡ false) × ((w : Value F) → set_back b w ≡ absent)
