-- ===== src/Observable/Model/Remove.antt =====
-- observable/controllers/model.go: RemoveValueAt against the removal from a list.
use zugoui.Prelude.{
  ℕ, zero, suc, ◌+◌, ◌-◌, ◌<◌, List, [], ◌∷◌, ◌++◌, length, get_elem?, take, drop, ltb, true, false,
  ◌≡◌, refl, ap, arith, inl, inr, Bool-cases, length-append, take-length, take-length-append,
  ltb→lt,
}
use zugoui.Observable.Model.{removed}

module _ {V : Type 0} where
  -- The removal of an element; an index behind the end removes nothing.
  unfoldable pub remove_spec : ℕ → List V → List V
  remove_spec i [] = []
  remove_spec zero (x ∷ xs) = xs
  remove_spec (suc i) (x ∷ xs) = x ∷ remove_spec i xs

  take_copied :
      (i k n : ℕ) (xs rest : List V)
      → length xs ≡ i + suc k
      → n ≡ i + k
      → take n (take i xs ++ take k (drop (suc i) xs) ++ rest) ≡ remove_spec i xs
  unfolding remove_spec
  take_copied i k n [] rest h e = absurd (omega arith)
  take_copied zero k n (x ∷ xs) rest h e =
      rw (take-length k xs (omega arith)) (take-length-append n xs rest (omega arith))
  take_copied (suc i) k zero (x ∷ xs) rest h e = absurd (omega arith)
  take_copied (suc i) k (suc n) (x ∷ xs) rest h e =
      ap (λ (t : List V). x ∷ t) (take_copied i k n xs rest (omega arith) (omega arith))

  take_last : (i : ℕ) (xs : List V) → length xs ≡ suc i → take i xs ≡ remove_spec i xs
  unfolding remove_spec
  take_last i [] h = absurd (omega arith)
  take_last zero (x ∷ []) h = refl
  take_last zero (x ∷ y ∷ xs) h = absurd (omega arith)
  take_last (suc i) (x ∷ xs) h = ap (λ (t : List V). x ∷ t) (take_last i xs (omega arith))

  pub removed_inside : (i : ℕ) (xs : List V) → i < length xs → removed i xs ≡ remove_spec i xs
  unfolding removed
  removed_inside i xs h = elim (Bool-cases (ltb (i + 1) (length xs))) [
    | inl lo ↦ inner (ltb→lt (i + 1) (length xs) lo) lo
    | inr hi ↦ last (ground arith) hi
  ]
    where
      inner : i + 1 < length xs → ltb (i + 1) (length xs) ≡ true → removed i xs ≡ remove_spec i xs
      inner g lo =
          let next : i + 1 ≡ suc i = omega arith in
          rw (lo, next)
            (take_copied i (length xs - 1 - i) (length xs - 1) xs
              (drop (i + (length xs - 1 - i)) xs) (omega arith) (omega arith))

      last : length xs ≡ suc i → ltb (i + 1) (length xs) ≡ false → removed i xs ≡ remove_spec i xs
      last g hi = let end : length xs - 1 ≡ i = omega arith in rw (hi, end) (take_last i xs g)

  pub removed_end : (xs : List V) (x : V) → removed (length xs + 1) (xs ++ x ∷ []) ≡ xs
  unfolding removed
  removed_end xs x =
      let size : length (xs ++ x ∷ []) ≡ length xs + 1 = length-append xs (x ∷ []) in
      let stays : ltb (length xs + 1 + 1) (length (xs ++ x ∷ [])) ≡ false = ground (arith, size) in
      rw stays (take-length-append (length (xs ++ x ∷ []) - 1) xs (x ∷ []) (omega (arith, size)))

  -- The copy and SetLen of RemoveValueAt remove the element of an index on the list. The index
  -- behind the last element passes the guard as well, and removes the last element.
  pub removed-remove_spec :
      (i : ℕ) (xs ys : List V) (y : V)
      → i < length xs
      → (removed i xs ≡ remove_spec i xs) × (removed (length ys + 1) (ys ++ y ∷ []) ≡ ys)
  removed-remove_spec i xs ys y h = (removed_inside i xs h, removed_end ys y)

  pub length-remove_spec :
      (i : ℕ) (xs : List V) → i < length xs → suc (length (remove_spec i xs)) ≡ length xs
  unfolding remove_spec
  length-remove_spec i [] h = absurd (omega arith)
  length-remove_spec zero (x ∷ xs) h = refl
  length-remove_spec (suc i) (x ∷ xs) h = ap suc (length-remove_spec i xs (omega arith))

  pub get_elem?-remove_spec :
      (i j : ℕ) (xs : List V) → j < i → get_elem? (remove_spec i xs) j ≡ get_elem? xs j
  unfolding remove_spec
  get_elem?-remove_spec i j [] h = refl
  get_elem?-remove_spec zero j (x ∷ xs) h = absurd (omega arith)
  get_elem?-remove_spec (suc i) zero (x ∷ xs) h = refl
  get_elem?-remove_spec (suc i) (suc j) (x ∷ xs) h = get_elem?-remove_spec i j xs (omega arith)
