-- ===== src/Jsrpc/Forms/Tests.antt =====
-- jsrpc/goui.go: tests, and the theorems at concrete inputs.
use zugoui.Prelude.{ℕ, codes, text_eq, [], ◌∷◌, List, Text, true, false, some, none, ◌≡◌, refl}
use zugoui.Jsrpc.Forms.{
  System, Status, Move, looking, blocked, resolved, looks, wakes, stores, run, step, asking,
  is_known,
}
use zugoui.Jsrpc.Forms.Waiting.{own_moves, waiter_gets_form, waiter_misses_form}
use zugoui.Prelude.Eq.{ℕ-eq}
use zugoui.Jsrpc.Forms.Listeners.{Op, adds, removes}

abbrev contact : Text
contact = codes "contact"

abbrev order : Text
order = codes "order"

-- the page asks, another form is bound, and then its own
abbrev moves : List Move
moves = looks 0 ∷ stores order ∷ wakes 0 ∷ looks 0 ∷ stores contact ∷ []

abbrev signalled : System
signalled = record {
  forms = contact ∷ order ∷ [];
  form_added = true;
  closed = false;
  waiters = (contact, blocked) ∷ [];
}

moves-run : run moves (some (asking ((contact, looking) ∷ []))) ≡ some signalled
unfolding run asking text_eq
moves-run = refl

contact-known : is_known contact (contact ∷ order ∷ []) ≡ true
unfolding is_known text_eq
contact-known = refl

waiter_gets_form_example :
    (st : Status) × (s' : System) × (signalled.waiters ≡ (contact, st) ∷ [])
    × (run (own_moves st) (some signalled) ≡ some s')
    × (s'.waiters ≡ (contact, resolved) ∷ [])
waiter_gets_form_example = waiter_gets_form contact moves signalled moves-run contact-known

forms_differ : text_eq contact order ≡ false
unfolding text_eq
forms_differ = refl

waiter_misses_form_example :
    (s : System) × (run
        (looks 0 ∷ looks 1 ∷ stores contact ∷ wakes 1 ∷ looks 1 ∷ [])
        (some (asking ((contact, looking) ∷ (order, looking) ∷ [])))
      ≡ some s)
    × (is_known contact s.forms ≡ true)
    × (s.waiters ≡ (contact, blocked) ∷ (order, blocked) ∷ [])
    × ((i : ℕ) → (step (looks i) s ≡ none) × (step (wakes i) s ≡ none))
waiter_misses_form_example = waiter_misses_form contact order forms_differ

abbrev ops : List (Op ℕ)
ops = adds order 1 ∷ adds order 1 ∷ adds contact 1 ∷ removes order 2 ∷ removes order 1 ∷ []
