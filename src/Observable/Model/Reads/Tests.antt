-- ===== src/Observable/Model/Reads/Tests.antt =====
-- observable/controllers/model.go: tests of the reads, and the theorems at concrete inputs.
use zugoui.Prelude.{
  ℕ, ◌%◌, Text, codes, List, [], ◌∷◌, Assoc, lookup, Option, none, some, length, ◌≡◌, refl, arith,
  ◌==◌, if◌then◌else◌, Bool,
}
use zugoui.Prelude.Int.{pos_part}
use zugoui.Prelude.Decimal.{itoa}
use zugoui.Observable.Model.{Body, Model, slice, mapping, struct, set_for, set_key}
use zugoui.Observable.Model.Reads.{Read, source, plain, keys, found, value_for, read_of, value}
use zugoui.Observable.Model.Reads.Fresh.{reads, sets, run, value-run}
use zugoui.Observable.Model.Reads.Stale.{value-stale}

-- even numbers get a sub-source, named by the number
abbrev even : Text → ℕ → Option ℕ
even key n = if n % 2 == 0 then some n else none

-- 1 stands for the nil interface
abbrev blank : ℕ → Bool
blank n = n == 1

abbrev person : Body ℕ
person = struct ((codes "Name", 4) ∷ (codes "Age", 7) ∷ [])

abbrev value_of : Text → Model ℕ ℕ → Read ℕ ℕ × Model ℕ ℕ
value_of = value pos_part length 0 blank even

abbrev new : Body ℕ → Model ℕ ℕ
new b = record { body = b; sources = [] }

listed : keys {V = ℕ} (slice (4 ∷ 7 ∷ [])) ≡ codes "0" ∷ codes "1" ∷ []
unfolding keys itoa
listed = refl

-- Value makes the entry of a map that it does not find, and ValueFor does not
made : (value_of (codes "a") (new (mapping []))).1.body ≡ mapping ((codes "a", 0) ∷ [])
unfolding value lookup zugoui.Prelude.insert
made = refl

not_made : value_for pos_part length 0 (codes "a") (mapping []) ≡ none
unfolding value_for lookup
not_made = refl

counted : (value_of (codes "len") (new (slice (4 ∷ 7 ∷ 5 ∷ [])))).0 ≡ plain 3
unfolding value lookup zugoui.Prelude.text_eq
counted = refl

-- SetValue of the nil interface, and Value of it
stuck :
    run pos_part length 0 blank even
      (λ k. 0)
      (sets (codes "Name") (some 1) ∷ reads (codes "Name") ∷ [])
      (new person)
    ≡ none
unfolding run lookup zugoui.Prelude.text_eq zugoui.Prelude.insert zugoui.Prelude.without
stuck = refl

abbrev renamed_person : Model ℕ ℕ
renamed_person = record { body = struct ((codes "Name", 6) ∷ (codes "Age", 7) ∷ []); sources = [] }

value-run_example :
    ((value_of (codes "Name") renamed_person).0
      ≡ read_of pos_part length 0 blank even (codes "Name") (some 6))
    × ((value_of
          (codes "Name")
          (set_key pos_part 0 (λ k. 0) (codes "Name") (some 9) renamed_person).model).0
        ≡ read_of pos_part length 0 blank even (codes "Name") (some 9))
unfolding found run lookup zugoui.Prelude.text_eq zugoui.Prelude.insert zugoui.Prelude.without
value-run_example =
    value-run pos_part length 0 blank even (λ k. 0) person
      (reads (codes "Name") ∷ sets (codes "Name") (some 6) ∷ []) renamed_person (codes "Name") 9 6
      tt refl refl

value-stale_example :
    let (read, seen) = value_of (codes "a") (new (mapping ((codes "a", 4) ∷ []))) in
    let written = (set_for (codes "a") (some 6) seen).model in
    (read ≡ source 4)
    × (value_for pos_part length 0 (codes "a") written.body ≡ some 6)
    × ((value_of (codes "a") written).0 ≡ source 4)
unfolding lookup zugoui.Prelude.text_eq
value-stale_example =
    value-stale pos_part length 0 blank even [] ((codes "a", 4) ∷ []) (codes "a") 4 4 6 refl refl
      refl refl
