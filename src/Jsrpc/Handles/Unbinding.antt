-- ===== src/Jsrpc/Handles/Unbinding.antt =====
-- jsrpc/browser.go: Unbind, and a session of any calls.
use zugoui.Prelude.{
  ℕ, ◌+◌, ◌≤◌, Text, text_eq, text_eq_sound, text_eq_refl, text_eq_iff, List, [], ◌∷◌, ◌++◌, lookup,
  lookup-without, lookup-empty, Bool, true, false, Option, none, some, ◌==◌, ==_iff, ◌≡◌, ◌≢◌, ◌⊎◌,
  inl, inr, refl, sym, ap, ◌∙◌, arith, Bool-cases, subst,
}
use zugoui.Jsrpc.Handles.{
  Browser, Binding, value_bindings, click_binding, no_binding, find, without_handle, new_browser,
  unbind, rebind, set_value, is_named, without_if, unbind_found, is_value, delete_if,
}
use zugoui.Jsrpc.Handles.Sound.{
  Op, binds_values, binds_click, unbinds, rebinds, apply, run, held, count, IsSound, count-append,
  held-without, find-without, find-held, not_given, new_value_binding-IsSound,
  new_click_binding-IsSound,
}

-- CompareAndDelete, by what the map holds
module _ (form : Text) (h : ℕ) (m : List (Text × ℕ)) where
  without_if-other :
      (g : Text) → text_eq form g ≡ false → lookup g (without_if form h m) ≡ lookup g m
  unfolding without_if
  without_if-other g n = by_found (lookup form m)
    where
      by_found : (o : Option ℕ) → lookup g (delete_if o form h m) ≡ lookup g m
      by_found none = refl
      by_found (some i) = elim (Bool-cases (i == h)) [
        | inl t ↦ rw (t, lookup-without form g m, n) refl
        | inr f ↦ rw f refl
      ]

  without_if-same : lookup form m ≡ some h → lookup form (without_if form h m) ≡ none
  unfolding without_if
  without_if-same e = rw (e, same) (rw (lookup-without form form m, text_eq_refl form) refl)
    where
      same : (h == h) ≡ true
      same = ground arith

  without_if-differs : (i : ℕ) → lookup form m ≡ some i → (i == h) ≡ false → without_if form h m ≡ m
  unfolding without_if
  without_if-differs i e n = rw (e, n) refl

  without_if-none : lookup form m ≡ none → without_if form h m ≡ m
  unfolding without_if
  without_if-none e = rw e refl

-- what the forms of a session stand for once a handle is gone
abbrev Remains : Browser → ℕ → List (Text × ℕ) → Text → Type 0
Remains b h m form =
    (lookup form m ≡ none)
    ⊎ ((i : ℕ) × (lookup form m ≡ some i)
        × ((h == i) ≡ false)
        × (find i b.handles ≡ some (value_bindings form)))

module _ (b : Browser) (h : ℕ) (v : Binding) (s : IsSound b) (e : find h b.handles ≡ some v) where
  dropped-IsSound :
      (m : List (Text × ℕ))
      → ((form : Text) → Remains b h m form)
      → lookup [] m ≡ none
      → IsSound (record b {
        handles = without_handle h b.handles;
        form_ids = m;
        released = b.released ++ h ∷ [];
      })
  dropped-IsSound m left unnamed = record {
    once = λ j. ground (
      arith,
      held-without j h b.handles,
      count-append j h b.released,
      s.once j,
      find-held h b.handles v e,
    );
    given = λ j. given_less j (s.given j);
    forms = λ form. kept form (left form);
    unnamed = unnamed;
  }
    where
      given_less :
          (j : ℕ)
          → (j ≤ b.next_id) ⊎ (held j b.handles + count j b.released ≡ 0)
          → (j ≤ b.next_id)
            ⊎ (held j (without_handle h b.handles) + count j (b.released ++ h ∷ []) ≡ 0)
      given_less j (inl l) = inl l
      given_less j (inr z) = elim (Bool-cases (h == j)) [
        | inl t ↦ inl (ground (arith, not_given b h v s e))
        | inr n ↦
            inr (rw (held-without j h b.handles, count-append j h b.released, n) (omega (arith, z)))
      ]

      kept :
          (form : Text)
          → Remains b h m form
          → (lookup form m ≡ none)
            ⊎ ((i : ℕ) × (lookup form m ≡ some i)
                × (find i (without_handle h b.handles) ≡ some (value_bindings form)))
      kept form (inl none_left) = inl none_left
      kept form (inr (i, known, n, f)) = inr (i, known, find-without i h b.handles ∙ rw n f)

  -- a binding that no form stands for
  untouched :
      ((form : Text) → lookup form b.form_ids ≡ some h → v ≢ value_bindings form)
      → (form : Text) → Remains b h b.form_ids form
  untouched apart form = by_form (s.forms form)
    where
      by_form :
          (lookup form b.form_ids ≡ none)
            ⊎ ((i : ℕ) × (lookup form b.form_ids ≡ some i)
                × (find i b.handles ≡ some (value_bindings form)))
          → Remains b h b.form_ids form
      by_form (inl z) = inl z
      by_form (inr (i, known, f)) = elim (Bool-cases (h == i)) [
        | inl t ↦
            let same : h ≡ i = (==_iff h i).0 t in
            absurd (apart form (rw same known) (cc (f, e, same)))
        | inr n ↦ inr (i, known, n, f)
      ]

module _ (b : Browser) (h : ℕ) (s : IsSound b) where
  -- the form that goes with its binding, and those that stay
  named-Remains :
      (key : Text)
      → find h b.handles ≡ some (value_bindings key)
      → (g : Text) → Remains b h (without_if key h b.form_ids) g
  named-Remains key e g = elim (Bool-cases (text_eq key g)) [
    | inl t ↦
        subst (Remains b h (without_if key h b.form_ids)) (text_eq_sound key g t)
          (same_form (s.forms key))
    | inr n ↦ other_form n (s.forms g)
  ]
    where
      Known : Text → Type 0
      Known form =
          (lookup form b.form_ids ≡ none)
          ⊎ ((i : ℕ) × (lookup form b.form_ids ≡ some i)
              × (find i b.handles ≡ some (value_bindings form)))

      same_form : Known key → Remains b h (without_if key h b.form_ids) key
      same_form (inl z) = inl (ap (lookup key) (without_if-none key h b.form_ids z) ∙ z)
      same_form (inr (i, known, f)) = elim (Bool-cases (i == h)) [
        | inl t ↦ inl (without_if-same key h b.form_ids (rw (← (==_iff i h).0 t) known))
        | inr n ↦ inr (
          i,
          ap (lookup key) (without_if-differs key h b.form_ids i known n) ∙ known,
          ground arith,
          f,
        )
      ]

      other_form : text_eq key g ≡ false → Known g → Remains b h (without_if key h b.form_ids) g
      other_form n (inl z) = inl (without_if-other key h b.form_ids g n ∙ z)
      other_form n (inr (i, known, f)) = elim (Bool-cases (h == i)) [
        | inl t ↦
            let same : h ≡ i = (==_iff h i).0 t in
            let keys : key ≡ g = cc (e, f, same) in
            let alike = (text_eq_iff key g).1 keys in cc (alike, n)
        | inr d ↦ inr (i, without_if-other key h b.form_ids g n ∙ known, d, f)
      ]

  removed-IsSound :
      (v : Binding) → find h b.handles ≡ some v → IsSound (unbind_found h (some v) b).0
  unfolding unbind_found is_named text_eq
  removed-IsSound (value_bindings []) e =
      dropped-IsSound b h (value_bindings []) s e b.form_ids
        (untouched b h (value_bindings []) s e (λ form known same. nobody form known (cc (same))))
        s.unnamed
    where
      nobody : (form : Text) → lookup form b.form_ids ≡ some h → [] ≡ form → ⊥
      nobody form known q =
          let z = subst (λ k. lookup k b.form_ids ≡ some h) (sym q) known in cc (z, s.unnamed)
  removed-IsSound (value_bindings (c ∷ form)) e =
      dropped-IsSound b h (value_bindings (c ∷ form)) s e (without_if (c ∷ form) h b.form_ids)
        (named-Remains (c ∷ form) e) (without_if-other (c ∷ form) h b.form_ids [] refl ∙ s.unnamed)
  removed-IsSound click_binding e =
      dropped-IsSound b h click_binding s e b.form_ids
        (untouched b h click_binding s e (λ form known q. cc)) s.unnamed
  removed-IsSound no_binding e =
      dropped-IsSound b h no_binding s e b.form_ids
        (untouched b h no_binding s e (λ form known q. cc)) s.unnamed

  unbind-IsSound : IsSound (unbind h b).0
  unfolding unbind
  unbind-IsSound = by_found (find h b.handles) refl
    where
      by_found : (o : Option Binding) → find h b.handles ≡ o → IsSound (unbind_found h o b).0
      by_found none e = unfold unbind_found in s
      by_found (some v) e = removed-IsSound v e

pub apply-IsSound : (op : Op) (b : Browser) → IsSound b → IsSound (apply op b)
unfolding apply rebind
apply-IsSound (binds_values form bound) b s = new_value_binding-IsSound form bound b s
apply-IsSound binds_click b s = new_click_binding-IsSound b s
apply-IsSound (unbinds h) b s = unbind-IsSound b h s
apply-IsSound rebinds b s = record {
  once = s.once;
  given = s.given;
  forms = λ form. inl (lookup-empty form);
  unnamed = lookup-empty [];
}

pub run_from-IsSound : (ops : List Op) (b : Browser) → IsSound b → IsSound (run ops b)
unfolding run
run_from-IsSound [] b s = s
run_from-IsSound (op ∷ ops) b s = run_from-IsSound ops (apply op b) (apply-IsSound op b s)

pub new-IsSound : (headless : Bool) (last : ℕ) → IsSound (new_browser headless last)
unfolding new_browser held count
new-IsSound headless last = record {
  once = λ h. omega arith;
  given = λ h. inr refl;
  forms = λ form. inl (lookup-empty form);
  unnamed = lookup-empty [];
}

find-unbind : (h : ℕ) (b : Browser) → find h (unbind h b).0.handles ≡ none
unfolding unbind
find-unbind h b = by_found (find h b.handles) refl
  where
    gone : find h (without_handle h b.handles) ≡ none
    gone = find-without h h b.handles ∙ ground arith

    by_found :
        (o : Option Binding) → find h b.handles ≡ o → find h (unbind_found h o b).0.handles ≡ none
    by_found none e = unfold unbind_found in e
    by_found (some (value_bindings form)) e = unfold unbind_found in gone
    by_found (some click_binding) e = unfold unbind_found in gone
    by_found (some no_binding) e = unfold unbind_found in gone

-- A handle that was given to Unbind is unknown to every later call: a second Unbind fails and
-- changes nothing, and SetValue fails.
pub unbind_again :
    (h : ℕ) (b : Browser)
    → (unbind h (unbind h b).0 ≡ ((unbind h b).0, false)) × (set_value h (unbind h b).0 ≡ false)
unfolding set_value is_value
unbind_again h b = (unknown (unbind h b).0 (find-unbind h b), rw (find-unbind h b) refl)
  where
    unknown : (b' : Browser) → find h b'.handles ≡ none → unbind h b' ≡ (b', false)
    unknown b' e = unfold unbind unbind_found in rw e refl
