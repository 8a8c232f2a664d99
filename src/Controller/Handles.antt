-- ===== src/Controller/Handles.antt =====
-- controller/controller.go: the handles of the browser that Release gives back.
use zugoui.Prelude.{
  ℕ, Text, text_eq, List, [], ◌∷◌, ◌++◌, Assoc, lookup, insert, Bool, false, ◌||◌, some, ◌==◌, ◌≡◌,
  refl, ap, ◌∙◌, arith, Bool-cases, inl, inr,
}
use zugoui.Controller.{
  or_none, Controller, BrowserCall, release_action_observers, release_calls, unbind, add_handle,
  unbind_all, release_bindings, bind_values, release, release_actions,
}

-- whether calls unbind a handle
unfoldable pub unbinds : ℕ → List BrowserCall → Bool
unbinds j [] = false
unbinds j (unbind h ∷ calls) = h == j || unbinds j calls
unbinds j (_ ∷ calls) = unbinds j calls

unbinds-append :
    (j : ℕ) (xs ys : List BrowserCall) → unbinds j (xs ++ ys) ≡ (unbinds j xs || unbinds j ys)
unfolding unbinds
unbinds-append j [] ys = refl
unbinds-append j (unbind h ∷ xs) ys = ground (arith, unbinds-append j xs ys)
unbinds-append j (_ ∷ xs) ys = unbinds-append j xs ys

unbind_all-append :
    (j h : ℕ) (hs : List ℕ)
    → unbinds j (unbind_all (hs ++ h ∷ [])) ≡ (h == j || unbinds j (unbind_all hs))
unfolding unbinds unbind_all
unbind_all-append j h [] = refl
unbind_all-append j h (i ∷ hs) = ground (arith, unbind_all-append j h hs)

-- a key that is not the first
module _ {V : Type 0} where
  lookup-past :
      (key k : Text) (v : V) (m : Assoc V)
      → text_eq k key ≡ false
      → lookup key ((k, v) ∷ m) ≡ lookup key m
  unfolding lookup
  lookup-past key k v m n = rw n refl

  insert-past :
      (key k : Text) (w v : V) (m : Assoc V)
      → text_eq k key ≡ false
      → insert key w ((k, v) ∷ m) ≡ (k, v) ∷ insert key w m
  unfolding insert
  insert-past key k w v m n = rw n refl

add_handle-past :
    (key k : Text) (h : ℕ) (hs : List ℕ) (m : Assoc (List ℕ))
    → text_eq k key ≡ false
    → add_handle key h ((k, hs) ∷ m) ≡ (k, hs) ∷ add_handle key h m
unfolding add_handle
add_handle-past key k h hs m n =
    insert-past key k _ hs m n
    ∙ ap (λ x. (k, hs) ∷ insert key (or_none x ++ h ∷ []) m) (lookup-past key k hs m n)

release_bindings-add_handle :
    (j : ℕ) (key : Text) (h : ℕ) (m : Assoc (List ℕ))
    → unbinds j (release_bindings (add_handle key h m)) ≡ (h == j || unbinds j (release_bindings m))
unfolding unbinds release_bindings add_handle lookup insert unbind_all
release_bindings-add_handle j key h [] = refl
release_bindings-add_handle j key h ((k, hs) ∷ m) = elim (Bool-cases (text_eq k key)) [
  | inl t ↦
      rw
        (
          t,
          unbinds-append j (unbind_all (hs ++ h ∷ [])) (release_bindings m),
          unbinds-append j (unbind_all hs) (release_bindings m),
          unbind_all-append j h hs,
        )
        (ground arith)
  | inr n ↦
      ap (λ x. unbinds j (release_bindings x)) (add_handle-past key k h hs m n)
      ∙ (unbinds-append j (unbind_all hs) (release_bindings (add_handle key h m))
          ∙ swapped (release_bindings-add_handle j key h m))
]
  where
    swapped :
        unbinds j (release_bindings (add_handle key h m))
          ≡ (h == j || unbinds j (release_bindings m))
        → (unbinds j (unbind_all hs) || unbinds j (release_bindings (add_handle key h m)))
          ≡ (h == j || unbinds j (unbind_all hs ++ release_bindings m))
    swapped e = rw (e, unbinds-append j (unbind_all hs) (release_bindings m)) (ground arith)

module _ {A : Type 0} where
  -- Release unbinds the handle that BindValues got from the browser, beside those that it would
  -- have unbound without it.
  pub release-bind_values :
      (j : ℕ) (name form : Text) (mutable : Bool) (h : ℕ) (c : Controller A)
      → unbinds j (release (bind_values name form mutable (some h) c).0).1
        ≡ (h == j || unbinds j (release c).1)
  unfolding release bind_values
  release-bind_values j name form mutable h c =
      let rest = release_action_observers ∷ release_calls ∷ release_actions c.actions in
      let key = c.prefix ++ name in
      unbinds-append j (release_bindings (add_handle key h c.bindings)) rest
      ∙ rw
          (
            release_bindings-add_handle j key h c.bindings,
            unbinds-append j (release_bindings c.bindings) rest,
          )
          (ground arith)
