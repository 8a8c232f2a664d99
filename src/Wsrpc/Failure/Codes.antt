-- ===== src/Wsrpc/Failure/Codes.antt =====
-- wsrpc/rpctypes/call.go: which code a page receives.
use zugoui.Prelude.{
  ℕ, ◌∙◌, Text, List, [], ◌∷◌, true, Option, none, some, ◌≡◌, ◌≢◌, refl, Bool-cases, inl, inr,
}
use zugoui.Wsrpc.Failure.{
  GoError, GoErrors, wraps, validation, code_invalid, as_coded, invalid, code_of, action_error,
  code_by, is_empty,
}

module _ {P : Type 0} where
  -- an error inside layers of fmt.Errorf with %w, the outermost text first
  unfoldable pub wrapped : List Text → GoError P → GoError P
  wrapped [] e = e
  wrapped (m ∷ ms) e = wraps m (wrapped ms e)

  code_by-ne-nil : (found : Option (Text × Option P)) → (code_by found).0 ≢ []
  unfolding code_by
  code_by-ne-nil none h = cc
  code_by-ne-nil (some ([], p)) h = cc
  code_by-ne-nil (some (b ∷ c, p)) h = cc

  pub code_of-ne-nil : (e : GoError P) → (code_of e).0 ≢ []
  unfolding code_of
  code_of-ne-nil e h = elim (Bool-cases (invalid e)) [
    | inl t ↦ let h' = rw t at h in cc
    | inr n ↦ code_by-ne-nil (as_coded e) (rw n at h)
  ]

  code_of-wrapped : (ms : List Text) (e : GoError P) → code_of (wrapped ms e) ≡ code_of e
  unfolding wrapped code_of invalid as_coded
  code_of-wrapped [] e = refl
  code_of-wrapped (m ∷ ms) e = code_of-wrapped ms e

  invalid-wrapped : (ms : List Text) (e : GoError P) → invalid (wrapped ms e) ≡ invalid e
  unfolding wrapped invalid
  invalid-wrapped [] e = refl
  invalid-wrapped (m ∷ ms) e = invalid-wrapped ms e

  -- A failed validation gets the code for it and no parameters, whatever codes its fields have, and
  -- an error that ActionError gives a code gets that code, also where it wraps a failed validation;
  -- with an empty code it is still a failed validation.
  pub action_error-validation :
      (ms ns : List Text) (m : Text) (es : GoErrors P) (b : ℕ) (c : Text)
      → let bad = wrapped ns (validation m es) in
        (code_of (wrapped ms bad) ≡ (code_invalid, none))
        × (code_of (wrapped ms (action_error (b ∷ c) bad)) ≡ (b ∷ c, none))
        × (code_of (wrapped ms (action_error [] bad)) ≡ (code_invalid, none))
  action_error-validation ms ns m es b c = (
    code_of-wrapped ms _ ∙ code_of-wrapped ns _ ∙ (unfold code_of invalid in refl),
    code_of-wrapped ms _ ∙ (unfold code_of invalid as_coded action_error is_empty code_by in refl),
    code_of-wrapped ms _
        ∙ uncoded (wrapped ns (validation m es)) (invalid-wrapped ns _ ∙ (unfold invalid in refl)),
  )
    where
      uncoded :
          (e : GoError P) → invalid e ≡ true → code_of (action_error [] e) ≡ (code_invalid, none)
      uncoded e h = unfold code_of invalid action_error is_empty in rw h refl
