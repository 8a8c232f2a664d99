-- ===== src/Observable/Model/Tests.antt =====
-- observable/controllers/model.go: tests, and the theorems at concrete inputs.
use zugoui.Prelude.{
  ℕ, zero, suc, ◌+◌, ◌<◌, ◌^◌, Text, codes, text_eq, List, [], ◌∷◌, ◌++◌, Assoc, Option, none, some,
  length, get_elem?, ◌≡◌, refl, arith,
}
use zugoui.Prelude.Int.{pos, pos_part}
use zugoui.Prelude.Decimal.{itoa, atoi}
use zugoui.Observable.Model.{slice, struct, Effect, insert_at, remove_at, set_key, start}
use zugoui.Observable.Model.Insert.{insert_spec}
use zugoui.Observable.Model.Remove.{remove_spec}
use zugoui.Observable.Model.Mirror.{after, sliced, insert_at-after, remove_at-after, remove_at_end}

abbrev three : List ℕ
three = 10 ∷ 11 ∷ 12 ∷ []

abbrev shown : Text → Option ℕ
shown k = get_elem? three (pos_part (atoi k).0)

shown_second : shown (itoa (pos 2)) ≡ some 12
unfolding atoi itoa
shown_second = refl

inserted_middle :
    (insert_spec 0 1 99 three ≡ 10 ∷ 99 ∷ 11 ∷ 12 ∷ [])
    × (insert_spec 0 5 99 three ≡ 10 ∷ 11 ∷ 12 ∷ 0 ∷ 0 ∷ 99 ∷ [])
unfolding insert_spec
inserted_middle = (refl, refl)

-- SetValue of a field releases the sub-source that the field had.
released_source :
    (set_key {S = ℕ} pos_part 0
      (λ k. 0)
      (codes "Name")
      (some 5)
      (record {
        body = struct ((codes "Name", 4) ∷ []);
        sources = (codes "Name", 7) ∷ [];
      })).released
    ≡ 7 ∷ []
unfolding set_key zugoui.Prelude.lookup text_eq
released_source = refl

insert_at-after_example :
    (e : Effect ℕ ℕ) × (insert_at pos_part 0 (pos 1) (some 99) (sliced pos_part 0 three [])
      ≡ some e)
    × (e.model.body ≡ slice (insert_spec 0 1 99 three))
    × (after shown e.events (itoa (pos 2)) ≡ get_elem? (insert_spec 0 1 99 three) 2)
insert_at-after_example =
    insert_at-after pos_part 0 shown three [] 1 2 99 (omega arith) (omega arith) (omega arith)
      shown_second

remove_at-after_example :
    (e : Effect ℕ ℕ) × (remove_at pos_part 0 (pos 1) (sliced pos_part 0 three []) ≡ some e)
    × (e.model.body ≡ slice (remove_spec 1 three))
    × (after shown e.events (itoa (pos 2)) ≡ get_elem? (remove_spec 1 three) 2)
remove_at-after_example =
    remove_at-after pos_part 0 shown three [] 1 2 (omega arith) (omega arith) (omega arith)
      shown_second

remove_at_end_example :
    ((e : Effect ℕ ℕ) × (remove_at pos_part 0
          (pos (length three + 1))
          (sliced pos_part 0 (three ++ 9 ∷ []) [])
        ≡ some e)
      × (e.model.body ≡ slice three))
    × (remove_at {S = ℕ} pos_part 0 (pos 0) (sliced pos_part 0 [] []) ≡ none)
    × (remove_at pos_part 0 (pos 7) (sliced pos_part 0 (three ++ 9 ∷ []) [])
        ≡ some (start (sliced {S = ℕ} pos_part 0 (three ++ 9 ∷ []) [])))
remove_at_end_example = remove_at_end pos_part 0 three 9 [] 7 (omega arith)
