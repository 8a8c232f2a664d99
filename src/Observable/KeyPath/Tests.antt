-- ===== src/Observable/KeyPath/Tests.antt =====
-- observable/path.go: tests of the key path functions, and the theorems at concrete inputs.
use zugoui.Prelude.{
  ℕ, zero, suc, Text, codes, text_eq, [], ◌∷◌, none, some, if◌then◌else◌, ◌≡◌, refl, arith, All,
  Assoc, lookup, insert, ◌==◌,
}
use zugoui.Prelude.Dotted.{join, cut}
use zugoui.Observable.KeyPath.{
  Any, source, plain, nil, Sources, done, immutable, set_key_path, get_key_path,
}
use zugoui.Observable.KeyPath.Walk.{set_along, is_done, set_key_path-set_along, IsKey}

-- Two objects: 0 holds object 1 under "Answer", and 1 holds numbers.
abbrev read : ℕ → Text → Assoc ℕ → Any ℕ ℕ
read zero k m = if text_eq k (codes "Answer") then source 1 else nil
read (suc n) k m = elim (lookup k m) [ none ↦ nil | some v ↦ plain v ]

abbrev write : Text → Any ℕ ℕ → Assoc ℕ → Assoc ℕ
write k (plain v) m = insert k v m
write k _ m = m

abbrev two_objects : Sources
two_objects = record {
  State = Assoc ℕ;
  Object = ℕ;
  Datum = ℕ;
  mutable = λ s. s == 1;
  value = λ s k m. (read s k m, m);
  set_value = λ s k v m. write k v m;
  set_value_for = λ s k v m. write k v m;
  remove_value_for = λ s k m. m;
}

abbrev picked : Text
picked = codes "Answer.Picked"

set_inner : set_key_path two_objects 0 picked (plain 3) [] ≡ (done, (codes "Picked", 3) ∷ [])
unfolding set_key_path text_eq cut insert
set_inner = refl

set_root :
    set_key_path two_objects 0 (codes "Picked") (plain 3) [] ≡ (immutable (codes "Picked"), [])
unfolding set_key_path text_eq cut
set_root = refl

read_inner :
    get_key_path two_objects 0 picked ((codes "Picked", 3) ∷ [])
    ≡ (some (plain 3), (codes "Picked", 3) ∷ [])
unfolding get_key_path text_eq cut lookup
read_inner = refl

set_key_path-set_along_example :
    (is_done
        (set_key_path two_objects 0 (join (codes "Answer" ∷ codes "Picked" ∷ [])) (plain 3) []).0
      ≡ (set_along two_objects 0 (codes "Answer") (codes "Picked" ∷ []) (plain 3) []).0)
    × ((set_key_path two_objects 0 (join (codes "Answer" ∷ codes "Picked" ∷ [])) (plain 3) []).1
        ≡ (set_along two_objects 0 (codes "Answer") (codes "Picked" ∷ []) (plain 3) []).1)
set_key_path-set_along_example =
    set_key_path-set_along two_objects 0 (codes "Answer") (codes "Picked" ∷ []) (plain 3) [] keys
  where
    keys : All IsKey (codes "Answer" ∷ codes "Picked" ∷ [])
    keys = ground arith
