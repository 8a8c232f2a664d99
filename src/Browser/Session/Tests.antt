-- ===== src/Browser/Session/Tests.antt =====
-- browser/session.go: tests, and the theorems at concrete inputs.
use zugoui.Prelude.{
  true, false, ℕ, codes, [], ◌∷◌, List, none, some, Option, ◌≡◌, refl, leb, if◌then◌else◌, ◌+◌, ◌^◌,
}
use zugoui.Browser.Session.{
  serving, returned, Session, Input, connected, dropped, delay_over, context_done, subscribe_state,
  form, close, run, step, new_session, Calls, state_open, state_reconnecting, state_closed, add,
  no_subscribers, min_redial, on_connected,
}
use zugoui.Browser.Session.Subscriptions.{
  Op, adds, removes, under, apply_all, removed_by, under-apply_all,
}
use zugoui.Browser.Session.Backoff.{failed_dials, away, doubled, run-failed_dials}
use zugoui.Browser.Session.Runs.{IsSound, run-IsSound}
use zugoui.Browser.Session.Telling.{Tells, step-Tells}

abbrev fresh : Session ℕ
fresh = new_session

-- the page subscribes twice, the connection drops, and the session is closed while it waits
abbrev life : List (Input ℕ)
life =
    connected
    ∷ subscribe_state 7
    ∷ form (codes "contact")
    ∷ dropped none
    ∷ delay_over
    ∷ dropped none
    ∷ subscribe_state 8
    ∷ close
    ∷ context_done
    ∷ []

abbrev told_in_life : Calls ℕ
told_in_life = (7, state_reconnecting) ∷ (7, state_closed) ∷ (8, state_closed) ∷ []

abbrev ended : Session ℕ
ended = record {
  opened = none ∷ [];
  closed = true;
  canceled = true;
  state = state_closed;
  server = false;
  stores = [];
  stores_made = 1;
  released = 1 ∷ [];
  state_subs = record { next = 2; cbs = [] };
  phase = returned;
  first = false;
  delay = 2;
}

life-run : run life (some (fresh, [])) ≡ some (ended, told_in_life)
unfolding run new_session zugoui.Prelude.lookup zugoui.Prelude.insert
life-run = refl

run-IsSound_example : IsSound ended
run-IsSound_example = run-IsSound life ended told_in_life life-run

abbrev kept : Session ℕ
kept = record fresh { state_subs = record { next = 2; cbs = (1, 7) ∷ (2, 7) ∷ [] } }

abbrev shown : Session ℕ
shown = record kept {
  state = state_open;
  server = true;
  phase = serving;
  first = false;
  opened = none ∷ [];
}

shown-step : step connected kept ≡ some (shown, (7, state_open) ∷ (7, state_open) ∷ [])
unfolding step new_session
shown-step = refl

step-Tells_example : Tells kept (shown, (7, state_open) ∷ (7, state_open) ∷ [])
step-Tells_example =
    step-Tells connected kept shown ((7, state_open) ∷ (7, state_open) ∷ []) shown-step

run-failed_dials_example :
    (run (failed_dials 5 none) (some (away min_redial fresh, [])) ≡ some (away 30 fresh, []))
    × ((on_connected (away (doubled 5 min_redial) fresh)).0.delay ≡ min_redial)
run-failed_dials_example = run-failed_dials 5 fresh none

abbrev earlier : List (Op ℕ)
earlier = adds 7 ∷ adds 7 ∷ removes 1 ∷ []

abbrev later : List (Op ℕ)
later = removes 2 ∷ adds 9 ∷ []

under-apply_all_example :
    under 3 (apply_all later (add 7 (apply_all earlier no_subscribers))).cbs ≡ 7 ∷ []
unfolding apply_all removed_by no_subscribers
under-apply_all_example = under-apply_all earlier later 7
