-- ===== src/Browser/Session/Backoff.antt =====
-- browser/session.go: the delays between the dials of a session whose endpoint stays away.
use zugoui.Prelude.{
  ℕ, zero, suc, ◌^◌, List, [], ◌∷◌, false, some, Option, leb, if◌then◌else◌, ◌≡◌, refl, ap, ◌∙◌,
  arith,
}
use zugoui.Browser.Session.{
  Session, state_reconnecting, waiting, Input, dropped, delay_over, ConnError, run, step,
  next_delay, on_dropped, on_connected, set_state, min_redial, max_redial,
}

module _ {C : Type 0} where
  -- `n` waits, each with a dial that fails
  unfoldable pub failed_dials : ℕ → Option ConnError → List (Input C)
  failed_dials zero err = []
  failed_dials (suc n) err = delay_over ∷ dropped err ∷ failed_dials n err

-- the delay after some waits
unfoldable pub doubled : ℕ → ℕ → ℕ
doubled zero d = d
doubled (suc n) d = next_delay (doubled n d)

doubled-next_delay : (n d : ℕ) → doubled n (next_delay d) ≡ next_delay (doubled n d)
unfolding doubled
doubled-next_delay zero d = refl
doubled-next_delay (suc n) d = ap next_delay (doubled-next_delay n d)

doubled-min : (n : ℕ) → doubled n 1 ≡ (if leb (2 ^ n) 30 then 2 ^ n else 30)
unfolding doubled next_delay
doubled-min zero = refl
doubled-min (suc n) = ground (arith, doubled-min n)

module _ {C : Type 0} where
  -- a session between two dials, which the page has and has not closed
  abbrev pub away : ℕ → Session C → Session C
  away d s = record s {
    state = state_reconnecting;
    server = false;
    phase = waiting;
    first = false;
    canceled = false;
    delay = d;
  }

  one_failure :
      (s : Session C) (d : ℕ) (err : Option ConnError) (is : List (Input C))
      → run (delay_over ∷ dropped err ∷ is) (some (away d s, []))
        ≡ run is (some (away (next_delay d) s, []))
  unfolding run step on_dropped set_state
  one_failure s d err is = refl

  failures :
      (n : ℕ) (s : Session C) (d : ℕ) (err : Option ConnError)
      → run (failed_dials n err) (some (away d s, [])) ≡ some (away (doubled n d) s, [])
  unfolding failed_dials run doubled
  failures zero s d err = refl
  failures (suc n) s d err =
      one_failure s d err (failed_dials n err)
      ∙ failures n s (next_delay d) err
      ∙ ap (λ (x : ℕ). some (away x s, [])) (doubled-next_delay n d)

  -- After `n` failed dials in a row, a session that had been connected waits min(2 ^ n, 30) seconds
  -- for the next, and has told its subscribers nothing; when a dial connects, the delay is 1 second.
  pub run-failed_dials :
      (n : ℕ) (s : Session C) (err : Option ConnError)
      → (run (failed_dials n err) (some (away min_redial s, []))
          ≡ some (away (if leb (2 ^ n) max_redial then 2 ^ n else max_redial) s, []))
        × ((on_connected (away (doubled n min_redial) s)).0.delay ≡ min_redial)
  unfolding on_connected set_state
  run-failed_dials n s err =
      (failures n s 1 err ∙ ap (λ (x : ℕ). some (away x s, [])) (doubled-min n), refl)
