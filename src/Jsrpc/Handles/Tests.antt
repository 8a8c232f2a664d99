-- ===== src/Jsrpc/Handles/Tests.antt =====
-- jsrpc/browser.go: tests, and the theorems at concrete inputs.
use zugoui.Prelude.{ℕ, ◌+◌, leb, codes, [], ◌∷◌, List, true, false, ◌≡◌, refl, lookup, none}
use zugoui.Jsrpc.Handles.{Browser, new_browser, unbind, set_value}
use zugoui.Jsrpc.Handles.Sound.{
  Op, binds_values, binds_click, unbinds, rebinds, run, held, count, IsSound,
}
use zugoui.Jsrpc.Handles.Ledger.{issued, taken, run-IsSound_handles}

-- a form that is bound twice, of which the first binding is given up
abbrev calls : List Op
calls =
    binds_values (codes "contact") true
    ∷ binds_click
    ∷ binds_values (codes "contact") true
    ∷ unbinds 11
    ∷ []

abbrev page : Browser
page = run calls (new_browser true 10)

known : page.form_ids ≡ (codes "contact", 13) ∷ []
unfolding run new_browser lookup zugoui.Prelude.insert zugoui.Prelude.text_eq
known = refl

-- Rebind forgets the forms, though their bindings stay
forgotten :
    (lookup (codes "contact") (run (rebinds ∷ []) page).form_ids ≡ none)
    × (set_value 13 page ≡ true)
unfolding run lookup set_value new_browser
forgotten = (refl, refl)

run-IsSound_handles_example :
    let new = new_browser true 10 in
    ((h : ℕ) → held h page.handles + count h (taken calls new) ≡ count h (issued calls new))
    × (page.released ≡ taken calls new)
    × ((h : ℕ) → (unbind h page).1 ≡ leb 1 (held h page.handles))
    × IsSound page
run-IsSound_handles_example = run-IsSound_handles true 10 calls
