-- ===== src/Jsrpc/Handles/Ledger.antt =====
-- jsrpc/browser.go: the handles that a session gives out, and those that it takes back.
use zugoui.Prelude.{
  ℕ, ◌+◌, leb, Text, List, [], ◌∷◌, ◌++◌, append_assoc, append-nil, Bool, true, false, Option, none,
  some, ◌&&◌, ◌||◌, if◌then◌else◌, ◌≡◌, refl, sym, ap, ◌∙◌, arith,
}
use zugoui.Jsrpc.Handles.{
  Browser, Binding, value_bindings, click_binding, no_binding, find, without_handle, new_browser,
  new_value_binding, new_click_binding, unbind, unbind_found, rebind, store_bindings, store_form,
  show_form, is_named,
}
use zugoui.Jsrpc.Handles.Sound.{
  Op, binds_values, binds_click, unbinds, rebinds, apply, run, held, count, IsSound, stored,
  count-append, held-without, find-held,
}
use zugoui.Jsrpc.Handles.Unbinding.{apply-IsSound, run_from-IsSound, new-IsSound}

find-none : (h : ℕ) (hs : List (ℕ × Binding)) → find h hs ≡ none → held h hs ≡ 0
unfolding find held
find-none h [] e = refl
find-none h ((i, v) ∷ hs) e = ground (arith, find-none h hs)

abbrev given : Option ℕ → List ℕ
given none = []
given (some h) = h ∷ []

-- the handle that a call returns
abbrev given_out : Op → Browser → List ℕ
given_out (binds_values form bound) b = given (new_value_binding form bound b).1
given_out binds_click b = (new_click_binding b).1 ∷ []
given_out (unbinds h) b = []
given_out rebinds b = []

-- the handle that a call of Unbind takes back, if it succeeds
abbrev taken_by : Op → Browser → List ℕ
taken_by (unbinds h) b = if (unbind h b).1 then h ∷ [] else []
taken_by (binds_values form bound) b = []
taken_by binds_click b = []
taken_by rebinds b = []

-- the handles that a session of calls returns, and those that it takes back, in order
unfoldable pub issued : List Op → Browser → List ℕ
issued [] b = []
issued (op ∷ ops) b = given_out op b ++ issued ops (apply op b)

unfoldable pub taken : List Op → Browser → List ℕ
taken [] b = []
taken (op ∷ ops) b = taken_by op b ++ taken ops (apply op b)

count-both : (j : ℕ) (is js : List ℕ) → count j (is ++ js) ≡ count j is + count j js
unfolding count
count-both j [] js = omega arith
count-both j (i ∷ is) js = omega (arith, count-both j is js)

abbrev total : ℕ → Browser → ℕ
total j b = held j b.handles + count j b.released

-- What a call changes is what it gives out and takes back.
abbrev Settles : Browser → Browser → List ℕ → List ℕ → Type 0
Settles b b' out back =
    ((j : ℕ) → total j b' ≡ count j out + total j b) × (b'.released ≡ b.released ++ back)

abbrev Alike : Browser → Browser → Type 0
Alike b b' = (b.handles ≡ b'.handles) × (b.released ≡ b'.released)

store_form-Alike : (form : Text) (h : ℕ) (b : Browser) → Alike b (store_form form h b)
unfolding store_form is_named
store_form-Alike [] h b = (refl, refl)
store_form-Alike (c ∷ form) h b = (refl, refl)

show_form-Alike : (form : Text) (h : ℕ) (b : Browser) → Alike b (show_form form h b)
unfolding show_form
show_form-Alike form h b = by_test (b.headless && is_named form)
  where
    by_test : (t : Bool) → Alike b (if t then record b { shown = b.shown ++ (form, h) ∷ [] } else b)
    by_test true = (refl, refl)
    by_test false = (refl, refl)

module _ (b : Browser) where
  settled : (b' : Browser) → Alike b b' → Settles b b' [] []
  unfolding count
  settled b' (hs, rs) = (λ j. rw (← hs, ← rs) (omega arith), sym rs ∙ sym (append-nil b.released))

  stored-Settles :
      (v : Binding) (b' : Browser)
      → let h = b.next_id + 1 in
        Alike (record b { next_id = h; handles = (h, v) ∷ b.handles }) b' → Settles b b' (h ∷ []) []
  unfolding held count
  stored-Settles v b' (hs, rs) =
      (λ j. rw (← hs, ← rs) (omega arith), sym rs ∙ sym (append-nil b.released))

  value-Settles :
      (form : Text) (t : Bool)
      → let h = b.next_id + 1 in
        let b' : Browser = record b { next_id = h } in
        let new : Browser × Option ℕ =
          if t
          then (show_form form h (store_bindings h (value_bindings form) b'), some h)
          else (b', none) in
        Settles b new.0 (given new.1) []
  unfolding store_bindings
  value-Settles form true =
      let h = b.next_id + 1 in
      let v = value_bindings form in
      let b' : Browser = record b { next_id = h; handles = (h, v) ∷ b.handles } in
      let (hs, rs) = store_form-Alike form h b' in
      let (hs', rs') = show_form-Alike form h (store_form form h b') in
      stored-Settles v (show_form form h (store_form form h b')) (hs ∙ hs', rs ∙ rs')
  value-Settles form false = settled (record b { next_id = b.next_id + 1 }) (refl, refl)

  click-Settles : Settles b (new_click_binding b).0 (given_out binds_click b) []
  unfolding new_click_binding store_bindings
  click-Settles = by_test b.headless
    where
      by_test :
          (t : Bool)
          → let h = b.next_id + 1 in
            Settles b
              (store_bindings h
                (if t then no_binding else click_binding)
                (record b { next_id = h }))
              (h ∷ [])
              []
      by_test true = stored-Settles no_binding (stored no_binding b) (refl, refl)
      by_test false = stored-Settles click_binding (stored click_binding b) (refl, refl)

  unbind-Settles : (h : ℕ) → IsSound b → Settles b (unbind h b).0 [] (taken_by (unbinds h) b)
  unfolding unbind
  unbind-Settles h s = by_found (find h b.handles) refl
    where
      gone :
          (v : Binding)
          → find h b.handles ≡ some v
          → (j : ℕ)
          → held j (without_handle h b.handles) + count j (b.released ++ h ∷ []) ≡ 0 + total j b
      gone v e j = ground (
        arith,
        held-without j h b.handles,
        count-append j h b.released,
        s.once j,
        find-held h b.handles v e,
      )

      by_found :
          (o : Option Binding)
          → find h b.handles ≡ o
          → Settles b (unbind_found h o b).0 [] (if (unbind_found h o b).1 then h ∷ [] else [])
      by_found none e = unfold unbind_found in settled b (refl, refl)
      by_found (some (value_bindings form)) e =
          unfold unbind_found count in (gone (value_bindings form) e, refl)
      by_found (some click_binding) e = unfold unbind_found count in (gone click_binding e, refl)
      by_found (some no_binding) e = unfold unbind_found count in (gone no_binding e, refl)

apply-Settles :
    (op : Op) (b : Browser) → IsSound b → Settles b (apply op b) (given_out op b) (taken_by op b)
unfolding apply new_value_binding rebind
apply-Settles (binds_values form bound) b s = value-Settles b form (b.headless || bound)
apply-Settles binds_click b s = click-Settles b
apply-Settles (unbinds h) b s = unbind-Settles b h s
apply-Settles rebinds b s = settled b (record b { form_ids = [] }) (refl, refl)

run-Settles :
    (ops : List Op) (b : Browser) → IsSound b → Settles b (run ops b) (issued ops b) (taken ops b)
unfolding run issued taken
run-Settles [] b s = settled b b (refl, refl)
run-Settles (op ∷ ops) b s =
    let (one, back) = apply-Settles op b s in
    let (rest, backs) = run-Settles ops (apply op b) (apply-IsSound op b s) in
    (
      λ j. omega (arith, one j, rest j, count-both j (given_out op b) (issued ops (apply op b))),
      backs
          ∙ ap (λ r. r ++ taken ops (apply op b)) back
          ∙ append_assoc b.released (taken_by op b) (taken ops (apply op b)),
    )

unbind_found-true : (h : ℕ) (v : Binding) (b : Browser) → (unbind_found h (some v) b).1 ≡ true
unfolding unbind_found
unbind_found-true h (value_bindings form) b = refl
unbind_found-true h click_binding b = refl
unbind_found-true h no_binding b = refl

held_succeeds : (h : ℕ) (b : Browser) → (unbind h b).1 ≡ leb 1 (held h b.handles)
unfolding unbind
held_succeeds h b = by_found (find h b.handles) refl
  where
    by_found :
        (o : Option Binding)
        → find h b.handles ≡ o
        → (unbind_found h o b).1 ≡ leb 1 (held h b.handles)
    by_found none e = unfold unbind_found in ground (arith, find-none h b.handles e)
    by_found (some v) e = unbind_found-true h v b ∙ ground (arith, find-held h b.handles v e)

-- After any calls of NewValueBinding, NewClickBinding, Unbind and Rebind on a new service, each
-- handle that a call returned is held, or Unbind has taken it back, and not both, and no handle was
-- returned twice; the bindings that were released are those of the handles taken back, in that order;
-- Unbind of a handle succeeds where it is held and only there; and a form that is known stands for a
-- binding that is held and has that form's name.
pub run-IsSound_handles :
    (headless : Bool) (last : ℕ) (ops : List Op)
    → let new = new_browser headless last in
      let b = run ops new in
      ((h : ℕ) → held h b.handles + count h (taken ops new) ≡ count h (issued ops new))
      × (b.released ≡ taken ops new)
      × ((h : ℕ) → (unbind h b).1 ≡ leb 1 (held h b.handles))
      × IsSound b
unfolding new_browser held count
run-IsSound_handles headless last ops =
    let new = new_browser headless last in
    let (totals, same) = run-Settles ops new (new-IsSound headless last) in
    (
      λ h. omega (arith, totals h, ap (count h) same),
      same,
      λ h. held_succeeds h (run ops new),
      run_from-IsSound ops new (new-IsSound headless last),
    )
