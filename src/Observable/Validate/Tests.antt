-- ===== src/Observable/Validate/Tests.antt =====
-- observable/validate.go: tests, and the theorems at concrete inputs.
use zugoui.Prelude.{ℕ, codes, text_eq, insert, [], ◌∷◌, ◌≡◌, refl, inl}
use zugoui.Observable.Validate.{
  Source, node, unchecked, valid, fields, failed, end, leaf, child, pass, invalid, validate,
}
use zugoui.Observable.Validate.Errors.{ErrorAt, validate-ErrorAt, validate-pass}

-- a model with an error of its own, and two models inside it
abbrev survey : Source ℕ
survey = node (fields ((codes "Title", 1) ∷ [])) (
    leaf (codes "Title") (
      child (codes "Answer") (node (fields ((codes "Text", 2) ∷ [])) end)
        (child (codes "Extra") (node (failed 3) end) end)))

reported :
    validate survey
    ≡ invalid ((codes "Title", 1) ∷ (codes "Answer.Text", 2) ∷ (codes "Extra", 3) ∷ [])
unfolding validate insert text_eq
reported = refl

validate-ErrorAt_example : ErrorAt survey (codes "Title") 1
validate-ErrorAt_example =
    validate-ErrorAt survey
      ((codes "Title", 1) ∷ (codes "Answer.Text", 2) ∷ (codes "Extra", 3) ∷ []) (codes "Title") 1
      reported (inl (refl, refl))

abbrev clean : Source ℕ
clean = node valid (child (codes "Answer") (node unchecked end) end)

clean_passes : validate clean ≡ pass
unfolding validate
clean_passes = refl

validate-pass_example : ¬ ErrorAt clean (codes "Answer.Text") 2
validate-pass_example = validate-pass clean (codes "Answer.Text") 2 clean_passes
