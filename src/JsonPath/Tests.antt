-- ===== src/JsonPath/Tests.antt =====
-- jsonpath/jsonpath.go: tests, and the theorem at a concrete input.
use zugoui.Prelude.{
  ℕ, zero, suc, Text, codes, text_eq, List, [], ◌∷◌, true, Option, none, some, ◌≡◌, refl, arith,
}
use zugoui.Prelude.Dotted.{split, join}
use zugoui.Prelude.Decimal.{atoi}
use zugoui.JsonPath.{
  Ref, StructField, Shape, struct, slice, other, ok, err, no_field, json_name, key_path,
  from_key_path, field_by_json,
}
use zugoui.JsonPath.RoundTrip.{HasGoNames, from_key_path-key_path}

abbrev plain : ℕ → Ref ℕ
plain b = record { stars = 0; base = b }

abbrev answers : StructField ℕ
answers = record {
  name = codes "Answers";
  json_tag = codes "answers";
  exported = true;
  type = record { stars = 1; base = 1 };
}

abbrev picked : StructField ℕ
picked = record {
  name = codes "Picked";
  json_tag = codes "picked,omitempty";
  exported = true;
  type = plain 3;
}

-- a struct with a pointer to a slice of structs, one of whose fields holds the first struct again
abbrev survey : ℕ → Shape ℕ
survey zero = struct (answers ∷ [])
survey (suc zero) = slice (plain 2)
survey (suc (suc zero)) = struct (picked ∷ [])
survey (suc (suc (suc n))) = other

abbrev nothing_promoted : List (StructField ℕ) → Text → Option (StructField ℕ)
nothing_promoted fs name = none

resolved :
    key_path survey (some (plain 0)) (codes "answers.2.picked")
    ≡ ok (codes "Answers.2.Picked", plain 3)
unfolding key_path split field_by_json json_name text_eq atoi join
resolved = refl

unknown :
    key_path survey (some (plain 0)) (codes "answers.2.hidden") ≡ err (no_field (codes "hidden"))
unfolding key_path split field_by_json json_name text_eq atoi
unknown = refl

survey-HasGoNames : (b : ℕ) → HasGoNames (survey b)
survey-HasGoNames zero = ground arith
survey-HasGoNames (suc zero) = tt
survey-HasGoNames (suc (suc zero)) = ground arith
survey-HasGoNames (suc (suc (suc n))) = tt

from_key_path-key_path_example :
    from_key_path survey nothing_promoted (some (plain 0)) (codes "Answers.2.Picked")
    ≡ codes "answers.2.picked"
from_key_path-key_path_example =
    from_key_path-key_path survey nothing_promoted survey-HasGoNames (some (plain 0))
      (codes "answers.2.picked") (codes "Answers.2.Picked") (plain 3) resolved

-- A tag "-,…" gives a field the name "-" in encoding/json; here the field has no name.
abbrev dash : StructField ℕ
dash = record { name = codes "Dash"; json_tag = codes "-,"; exported = true; type = plain 3 }

dash_not_encoded : json_name dash ≡ none
unfolding json_name text_eq
dash_not_encoded = refl
