-- ===== src/Observable/Observe/Tests.antt =====
-- observable/observer.go: tests, and the theorems at concrete inputs.
use zugoui.Prelude.{ℕ, Text, codes, List, [], ◌∷◌, ◌≡◌, refl, arith, text_eq, lookup, insert}
use zugoui.Prelude.Int.{pos, add, sub}
use zugoui.Prelude.Eq.{ℕ-eq}
use zugoui.Observable.Observe.{
  Observe, Event, remove_observer, at_key, set_value, new, add_observer, start_update, done,
  observers_for, notify,
}
use zugoui.Observable.Observe.Registrations.{
  Op, add_to, remove_from, open_update, close_update, run, record_all, nobody, audience,
  observers_for-run,
}
use zugoui.Observable.Observe.Updates.{start_update-done}

abbrev name_key : Text
name_key = codes "Name"

abbrev calls : List (Op ℕ)
calls =
    add_to [] 1
    ∷ add_to name_key 2
    ∷ add_to name_key 3
    ∷ open_update
    ∷ remove_from name_key 2
    ∷ close_update
    ∷ []

-- the observers of the key come first, then the observer of all keys
reached : observers_for (run calls new) name_key ≡ 3 ∷ 1 ∷ []
unfolding observers_for run add_observer remove_observer new start_update done at_key add sub lookup
    insert text_eq
reached = refl

observers_for-run_example :
    observers_for (run calls new) name_key ≡ audience (record_all calls nobody) name_key
observers_for-run_example = observers_for-run calls name_key

abbrev ev : Event ℕ
ev = set_value name_key 5

abbrev one_watcher : Observe ℕ
one_watcher = record { observers = ([], 7 ∷ []) ∷ []; updating = pos 0 }

start_update-done_example :
    (notify (start_update one_watcher) ev ≡ []) × (done (start_update one_watcher) ≡ one_watcher)
start_update-done_example = start_update-done one_watcher 0 ev refl (omega arith)
