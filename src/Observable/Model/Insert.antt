-- ===== src/Observable/Model/Insert.antt =====
-- observable/controllers/model.go: InsertValueAt against the insertion into a list.
use zugoui.Prelude.{
  ℕ, zero, suc, ◌+◌, ◌-◌, ◌≤◌, ◌<◌, List, [], ◌∷◌, ◌++◌, length, get_elem?, set, take, drop,
  replicate, ltb, leb, true, false, ◌≡◌, refl, ap, arith, inl, inr, Bool-cases, length-append,
  take-length-append, drop-length-le, append-nil, ltb→lt,
}
use zugoui.Observable.Model.{inserted}

module _ {V : Type 0} (z : V) where
  -- The insertion into a list, which grows with zero elements where the index is behind its end.
  unfoldable pub insert_spec : ℕ → V → List V → List V
  insert_spec zero v xs = v ∷ xs
  insert_spec (suc i) v [] = z ∷ insert_spec i v []
  insert_spec (suc i) v (x ∷ xs) = x ∷ insert_spec i v xs

  set_grown :
      (i n : ℕ) (v : V) (xs : List V)
      → i ≡ length xs + n
      → set (xs ++ replicate (suc n) z) i v ≡ insert_spec i v xs
  unfolding insert_spec
  set_grown zero zero v [] h = refl
  set_grown zero (suc n) v [] h = absurd (omega arith)
  set_grown (suc i) zero v [] h = absurd (omega arith)
  set_grown (suc i) (suc n) v [] h = ap (λ (t : List V). z ∷ t) (set_grown i n v [] (omega arith))
  set_grown zero n v (x ∷ xs) h = absurd (omega arith)
  set_grown (suc i) n v (x ∷ xs) h = ap (λ (t : List V). x ∷ t) (set_grown i n v xs (omega arith))

  set_copied :
      (i k m : ℕ) (v : V) (xs : List V)
      → length xs ≡ i + suc k
      → m ≡ suc i + suc k
      → set
          (take (suc i) (xs ++ z ∷ [])
            ++ take (suc k) (drop i (xs ++ z ∷ []))
            ++ drop m (xs ++ z ∷ []))
          i
          v
        ≡ insert_spec i v xs
  unfolding insert_spec
  set_copied i k zero v xs h e = absurd (omega arith)
  set_copied i k (suc m) v [] h e = absurd (omega arith)
  set_copied zero k (suc m) v (x ∷ xs) h e = rw (
    take-length-append k xs (z ∷ []) (omega arith),
    drop-length-le m (xs ++ z ∷ []) (omega (arith, length-append xs (z ∷ []))),
    append-nil,
  )
  set_copied (suc i) k (suc m) v (x ∷ xs) h e =
      ap (λ (t : List V). x ∷ t) (set_copied i k m v xs (omega arith) (omega arith))

  -- The growth, the copy and the write of InsertValueAt make the insertion.
  pub inserted-insert_spec : (i : ℕ) (v : V) (xs : List V) → inserted z i v xs ≡ insert_spec i v xs
  unfolding inserted
  inserted-insert_spec i v xs = elim (Bool-cases (ltb i (length xs))) [
    | inl lo ↦ inside (ltb→lt i (length xs) lo) lo
    | inr hi ↦ behind (ground arith) hi
  ]
    where
      inside : i < length xs → ltb i (length xs) ≡ true → inserted z i v xs ≡ insert_spec i v xs
      inside h lo =
          let no_gap : leb (length xs) i ≡ false = ground arith in
          let next : i + 1 ≡ suc i = omega arith in
          let rest : length xs - i ≡ suc (length xs - i - 1) = omega arith in
          rw (lo, no_gap, next, rest)
            (set_copied i (length xs - i - 1) (suc i + suc (length xs - i - 1)) v xs (omega arith)
              refl)

      behind : length xs ≤ i → ltb i (length xs) ≡ false → inserted z i v xs ≡ insert_spec i v xs
      behind h hi =
          let gap : leb (length xs) i ≡ true = ground arith in
          let room : 1 + (i - length xs) ≡ suc (i - length xs) = omega arith in
          rw (hi, gap, room) (set_grown i (i - length xs) v xs (omega arith))

  pub length-insert_spec :
      (i : ℕ) (v : V) (xs : List V) → i ≤ length xs → length (insert_spec i v xs) ≡ suc (length xs)
  unfolding insert_spec
  length-insert_spec zero v xs h = refl
  length-insert_spec (suc i) v [] h = absurd (omega arith)
  length-insert_spec (suc i) v (x ∷ xs) h = ap suc (length-insert_spec i v xs (omega arith))

  pub get_elem?-insert_spec :
      (i j : ℕ) (v : V) (xs : List V)
      → i ≤ length xs
      → j < i
      → get_elem? (insert_spec i v xs) j ≡ get_elem? xs j
  unfolding insert_spec
  get_elem?-insert_spec zero j v xs h lt = absurd (omega arith)
  get_elem?-insert_spec (suc i) j v [] h lt = absurd (omega arith)
  get_elem?-insert_spec (suc i) zero v (x ∷ xs) h lt = refl
  get_elem?-insert_spec (suc i) (suc j) v (x ∷ xs) h lt =
      get_elem?-insert_spec i j v xs (omega arith) (omega arith)
