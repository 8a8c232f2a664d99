-- ===== src/Jsrpc/Handles/Sound.antt =====
-- jsrpc/browser.go: each handle is released once, and a form stands for the binding that it names.
use zugoui.Prelude.{
  ℕ, ◌+◌, ◌≤◌, Text, text_eq, text_eq_sound, List, [], ◌∷◌, ◌++◌, lookup, lookup-insert, Bool, true,
  false, Option, none, some, ◌==◌, if◌then◌else◌, ◌≡◌, ◌⊎◌, inl, inr, refl, arith, Bool-cases,
  subst, ◌||◌, ◌&&◌,
}
use zugoui.Jsrpc.Handles.{
  Browser, Binding, value_bindings, click_binding, no_binding, find, without_handle,
  new_value_binding, new_click_binding, unbind, rebind, store_bindings, store_form, show_form,
  is_named,
}

-- the calls of the server and of the page
pub data Op : Type 0 where
  binds_values : Text → Bool → Op
  binds_click : Op
  unbinds : ℕ → Op
  rebinds : Op

unfoldable pub apply : Op → Browser → Browser
unfolding new_value_binding new_click_binding unbind rebind
apply (binds_values form bound) b = (new_value_binding form bound b).0
apply binds_click b = (new_click_binding b).0
apply (unbinds h) b = (unbind h b).0
apply rebinds b = rebind b

unfoldable pub run : List Op → Browser → Browser
unfolding apply
run [] b = b
run (op ∷ ops) b = run ops (apply op b)

-- how often a handle is held, and was released
unfoldable pub held : ℕ → List (ℕ × Binding) → ℕ
held h [] = 0
held h ((i, v) ∷ hs) = (if i == h then 1 else 0) + held h hs

unfoldable pub count : ℕ → List ℕ → ℕ
count h [] = 0
count h (i ∷ is) = (if i == h then 1 else 0) + count h is

-- A handle was never given out, or is held once, or was released once; a form that is known stands
-- for a binding that is held and has its name.
pub record IsSound (b : Browser) : Type 0 where
  pub once : (h : ℕ) → held h b.handles + count h b.released ≤ 1
  pub given : (h : ℕ) → (h ≤ b.next_id) ⊎ (held h b.handles + count h b.released ≡ 0)
  pub forms :
      (form : Text)
      → (lookup form b.form_ids ≡ none)
        ⊎ ((h : ℕ) × (lookup form b.form_ids ≡ some h)
            × (find h b.handles ≡ some (value_bindings form)))
  pub unnamed : lookup [] b.form_ids ≡ none

pub count-append :
    (h i : ℕ) (is : List ℕ) → count h (is ++ i ∷ []) ≡ count h is + (if i == h then 1 else 0)
unfolding count
count-append h i [] = omega arith
count-append h i (j ∷ is) = omega (arith, count-append h i is)

pub held-without :
    (h i : ℕ) (hs : List (ℕ × Binding))
    → held h (without_handle i hs) ≡ (if i == h then 0 else held h hs)
unfolding held without_handle
held-without h i [] = ground arith
held-without h i ((j, v) ∷ hs) = ground (arith, held-without h i hs)

pub find-without :
    (h i : ℕ) (hs : List (ℕ × Binding))
    → find h (without_handle i hs) ≡ (if i == h then none else find h hs)
unfolding find without_handle
find-without h i [] = ground arith
find-without h i ((j, v) ∷ hs) = ground (arith, find-without h i hs)

pub find-held : (h : ℕ) (hs : List (ℕ × Binding)) (v : Binding) → find h hs ≡ some v → 1 ≤ held h hs
unfolding find held
find-held h [] v e = cc
find-held h ((j, w) ∷ hs) v e = ground (arith, find-held h hs v)

-- a handle that was never given out is not found
pub not_given :
    (b : Browser) (h : ℕ) (v : Binding) → IsSound b → find h b.handles ≡ some v → h ≤ b.next_id
not_given b h v s e = ground (arith, s.given h, find-held h b.handles v e)

given_more :
    (n h k : ℕ) → (h ≤ n) ⊎ (k ≡ 0) → (h ≤ n + 1) ⊎ (((if n + 1 == h then 1 else 0) + k) ≡ 0)
given_more n h k (inl l) = inl (omega arith)
given_more n h k (inr z) = elim (Bool-cases (n + 1 == h)) [
  | inl t ↦ inl (ground arith)
  | inr f ↦ inr (rw (f, z) (omega arith))
]

-- a binding that is held under a new handle, and no form of which is known yet
module _ (v : Binding) (b : Browser) where
  abbrev pub stored : Browser
  stored = record b { next_id = b.next_id + 1; handles = (b.next_id + 1, v) ∷ b.handles }

  find-stored :
      (h : ℕ) (w : Binding) → IsSound b → find h b.handles ≡ some w → find h stored.handles ≡ some w
  unfolding find
  find-stored h w s e = ground (arith, not_given b h w s e)

  stored-IsSound : IsSound b → IsSound stored
  unfolding held
  stored-IsSound s = record {
    once = λ h. ground (arith, s.once h, s.given h);
    given = λ h.
        subst (λ k. (h ≤ b.next_id + 1) ⊎ (k ≡ 0)) (omega arith)
          (given_more b.next_id h (held h b.handles + count h b.released) (s.given h));
    forms = λ form. kept form (s.forms form);
    unnamed = s.unnamed;
  }
    where
      kept :
          (form : Text)
          → (lookup form b.form_ids ≡ none)
            ⊎ ((h : ℕ) × (lookup form b.form_ids ≡ some h)
                × (find h b.handles ≡ some (value_bindings form)))
          → (lookup form b.form_ids ≡ none)
            ⊎ ((h : ℕ) × (lookup form b.form_ids ≡ some h)
                × (find h stored.handles ≡ some (value_bindings form)))
      kept form (inl e) = inl e
      kept form (inr (h, e, f)) = inr (h, e, find-stored h (value_bindings form) s f)

-- a handle that is given to no binding
skipped-IsSound : (b : Browser) → IsSound b → IsSound (record b { next_id = b.next_id + 1 })
skipped-IsSound b s = record {
  once = s.once;
  given = λ h. elim (s.given h) [ inl l ↦ inl (omega arith) | inr z ↦ inr z ];
  forms = s.forms;
  unnamed = s.unnamed;
}

-- a form that comes to stand for a binding with its name
named-IsSound :
    (b : Browser) (form : Text) (h : ℕ)
    → find h b.handles ≡ some (value_bindings form)
    → IsSound b
    → IsSound (store_form form h b)
unfolding store_form is_named
named-IsSound b [] h f s = s
named-IsSound b (c ∷ form) h f s = record {
  once = s.once;
  given = s.given;
  forms = λ g. elim (Bool-cases (text_eq (c ∷ form) g)) [
    | inl t ↦ inr (
      h,
      rw (lookup-insert (c ∷ form) g h b.form_ids, t) refl,
      rw (← text_eq_sound (c ∷ form) g t) f,
    )
    | inr n ↦ rw (lookup-insert (c ∷ form) g h b.form_ids, n) (s.forms g)
  ];
  unnamed = rw (lookup-insert (c ∷ form) [] h b.form_ids) (rw (cons_nil c form) s.unnamed);
}
  where
    cons_nil : (c : ℕ) (t : Text) → text_eq (c ∷ t) [] ≡ false
    cons_nil c t = unfold text_eq in refl

show-IsSound : (form : Text) (h : ℕ) (b : Browser) → IsSound b → IsSound (show_form form h b)
unfolding show_form
show-IsSound form h b s = by_test (b.headless && is_named form)
  where
    by_test : (t : Bool) → IsSound (if t then record b { shown = b.shown ++ (form, h) ∷ [] } else b)
    by_test true = record { once = s.once; given = s.given; forms = s.forms; unnamed = s.unnamed }
    by_test false = s

either-IsSound :
    (t : Bool) (p q : Browser × Option ℕ)
    → IsSound p.0
    → IsSound q.0
    → IsSound (if t then p else q).0
either-IsSound true p q hp hq = hp
either-IsSound false p q hp hq = hq

find_first : (h : ℕ) (v : Binding) (hs : List (ℕ × Binding)) → find h ((h, v) ∷ hs) ≡ some v
unfolding find
find_first h v hs = ground arith

pub new_value_binding-IsSound :
    (form : Text) (bound : Bool) (b : Browser)
    → IsSound b
    → IsSound (new_value_binding form bound b).0
unfolding new_value_binding store_bindings
new_value_binding-IsSound form bound b s =
    let v = value_bindings form in
    let h = b.next_id + 1 in
    either-IsSound (b.headless || bound) _ _
      (show-IsSound form h _
        (named-IsSound (stored v b) form h (find_first h v b.handles) (stored-IsSound v b s)))
      (skipped-IsSound b s)

pub new_click_binding-IsSound : (b : Browser) → IsSound b → IsSound (new_click_binding b).0
unfolding new_click_binding store_bindings
new_click_binding-IsSound b s = by_test b.headless
  where
    by_test :
        (t : Bool)
        → IsSound (
            store_bindings
              (b.next_id + 1)
              (if t then no_binding else click_binding)
              (record b { next_id = b.next_id + 1 }))
    by_test true = stored-IsSound no_binding b s
    by_test false = stored-IsSound click_binding b s
