-- ===== src/Browser/Session/Runs.antt =====
-- browser/session.go: a session after any inputs.
use zugoui.Prelude.{
  ◌≤◌, Bool-cases, inl, inr, ◌≢◌, ◌⊎◌, ◌∙◌, ℕ, List, [], ◌∷◌, Bool, true, false, Option, none, some,
  if◌then◌else◌, ◌≡◌, refl, sym, subst, arith, Text, lookup,
}
use zugoui.Browser.Session.{
  state_closed, Session, Phase, waiting, dialing, serving, returned, Input, connected, dropped,
  delay_over, context_done, parent_canceled, subscribe_state, unsubscribe, form, close, run, step,
  run_step, next_delay, Calls, new_session, then_calls, store, store_in,
}
use zugoui.Browser.Session.Lifecycle.{
  InPhase, IsValid, on_connected-IsValid, on_dropped-IsValid, close-IsValid,
}

module _ {C : Type 0} where
  abbrev pub IsClosedOr : Session C → Type 0
  IsClosedOr s =
      ((s.closed ≡ true) × (s.state ≡ state_closed) × (s.canceled ≡ true))
      ⊎ ((s.closed ≡ false) × (s.state ≢ state_closed))

  -- What holds of a session at any time.
  pub record IsSound (s : Session C) : Type 0 where
    pub in_phase : InPhase s.phase s
    pub delay_from : 1 ≤ s.delay
    pub delay_to : s.delay ≤ 30
    pub closed_or : IsClosedOr s

  -- A part of the state that no invariant is about may change.
  same_core :
      (s t : Session C)
      → (t.opened ≡ s.opened)
        × (t.closed ≡ s.closed)
        × (t.canceled ≡ s.canceled)
        × (t.state ≡ s.state)
        × (t.server ≡ s.server)
        × (t.phase ≡ s.phase)
        × (t.first ≡ s.first)
        × (t.delay ≡ s.delay)
      → IsValid s
      → IsValid t
  same_core s t (a, b, c, d, e, f, g, h) v = record {
    in_phase = subst (λ x. InPhase x t) (sym f) (core_phase s.phase v.in_phase);
    delay_from = rw h v.delay_from;
    delay_to = rw h v.delay_to;
    closed_state = rw (b, d) v.closed_state;
    state_closed' = rw (b, d) v.state_closed';
    closed_canceled = rw (b, c) v.closed_canceled;
  }
    where
      core_phase : (p : Phase) → InPhase p s → InPhase p t
      core_phase dialing q = rw (a, d, e, g) q
      core_phase serving q = rw (a, d, e, g) q
      core_phase waiting q = rw (a, d, e, g) q
      core_phase returned q = rw (a, c, e) q

  store-IsValid : (name : Text) (s : Session C) → IsValid s → IsValid (store name s)
  unfolding store store_in
  store-IsValid name s v = made (lookup name s.stores)
    where
      made : (found : Option ℕ) → IsValid (store_in name found s)
      made none = same_core s _ (refl, refl, refl, refl, refl, refl, refl, refl) v
      made (some f) = v

  parent-IsValid : (s : Session C) → IsValid s → IsValid (record s { canceled = true })
  parent-IsValid s v = record {
    in_phase = kept s.phase v.in_phase;
    delay_from = v.delay_from;
    delay_to = v.delay_to;
    closed_state = v.closed_state;
    state_closed' = v.state_closed';
    closed_canceled = λ h. refl;
  }
    where
      kept : (p : Phase) → InPhase p s → InPhase p (record s { canceled = true })
      kept dialing q = q
      kept serving q = q
      kept waiting q = q
      kept returned (a, b, c) = (a, b, refl)

  redial-IsValid :
      (s : Session C)
      → s.phase ≡ waiting
      → IsValid s
      → IsValid (record s { phase = dialing; delay = next_delay s.delay })
  unfolding next_delay
  redial-IsValid s p v =
      let (len, old, off, away) = subst (λ x. InPhase x s) p v.in_phase in
      record {
        in_phase = (ground arith, off, away);
        delay_from = ground (arith, v.delay_from);
        delay_to = ground (arith, v.delay_to);
        closed_state = v.closed_state;
        state_closed' = v.state_closed';
        closed_canceled = v.closed_canceled;
      }

  ended-IsValid :
      (s : Session C)
      → s.phase ≡ waiting
      → s.canceled ≡ true
      → IsValid s
      → IsValid (record s { phase = returned })
  ended-IsValid s p c v =
      let (len, old, off, away) = subst (λ x. InPhase x s) p v.in_phase in
      record {
        in_phase = (len, off, c);
        delay_from = v.delay_from;
        delay_to = v.delay_to;
        closed_state = v.closed_state;
        state_closed' = v.state_closed';
        closed_canceled = v.closed_canceled;
      }

  -- whatever a step gives is valid
  Gives : Option (Session C × Calls C) → Type 0
  Gives none = Unit
  Gives (some r) = IsValid r.0

  woken :
      (r : Session C × Calls C) (b : Bool)
      → (b ≡ true → IsValid r.0)
      → Gives (if b then some r else none)
  unfolding Gives
  woken r true h = h refl
  woken r false h = tt

  run_step-IsValid :
      (p : Phase) (i : Input C) (s : Session C) → s.phase ≡ p → IsValid s → Gives (run_step p i s)
  unfolding run_step Gives
  run_step-IsValid dialing connected s e v = on_connected-IsValid s e v
  run_step-IsValid dialing (dropped err) s e v =
      on_dropped-IsValid err s (subst (λ x. InPhase x s) e v.in_phase).0 v
  run_step-IsValid serving (dropped err) s e v =
      let (len, old, on, away) = subst (λ x. InPhase x s) e v.in_phase in
      on_dropped-IsValid err s (ground arith) v
  run_step-IsValid waiting delay_over s e v = redial-IsValid s e v
  run_step-IsValid waiting context_done s e v =
      woken (record s { phase = returned }, []) s.canceled (λ c. ended-IsValid s e c v)
  run_step-IsValid _ _ s e v = tt

  step-IsValid : (i : Input C) (s : Session C) → IsValid s → Gives (step i s)
  unfolding step Gives
  step-IsValid connected s v = run_step-IsValid s.phase connected s refl v
  step-IsValid (dropped err) s v = run_step-IsValid s.phase (dropped err) s refl v
  step-IsValid delay_over s v = run_step-IsValid s.phase delay_over s refl v
  step-IsValid context_done s v = run_step-IsValid s.phase context_done s refl v
  step-IsValid parent_canceled s v = parent-IsValid s v
  step-IsValid (subscribe_state cb) s v =
      same_core s _ (refl, refl, refl, refl, refl, refl, refl, refl) v
  step-IsValid (unsubscribe id) s v =
      same_core s _ (refl, refl, refl, refl, refl, refl, refl, refl) v
  step-IsValid (form name) s v = store-IsValid name s v
  step-IsValid close s v = close-IsValid s v

  then_calls-Gives :
      (calls : Calls C) (r : Option (Session C × Calls C)) → Gives r → Gives (then_calls calls r)
  unfolding Gives then_calls
  then_calls-Gives calls none g = tt
  then_calls-Gives calls (some r) g = g

  run-Gives : (is : List (Input C)) (r : Option (Session C × Calls C)) → Gives r → Gives (run is r)
  unfolding Gives run
  run-Gives [] r g = g
  run-Gives (i ∷ is) none g = tt
  run-Gives (i ∷ is) (some (s, calls)) g =
      run-Gives is (then_calls calls (step i s))
        (then_calls-Gives calls (step i s) (step-IsValid i s g))

  new_session-IsValid : IsValid (new_session {C = C})
  unfolding new_session
  new_session-IsValid = record {
    in_phase = (refl, refl, λ h. cc);
    delay_from = omega arith;
    delay_to = omega arith;
    closed_state = λ h. cc;
    state_closed' = λ h. cc;
    closed_canceled = λ h. cc;
  }

  closing : (s : Session C) → IsValid s → IsClosedOr s
  closing s v = elim (Bool-cases s.closed) [
    | inl e ↦ inl (e, v.closed_state e, v.closed_canceled e)
    | inr e ↦ inr (e, λ h. different (sym (v.state_closed' h) ∙ e))
  ]
    where
      different : true ≡ false → ⊥
      different h = cc

  IsValid-IsSound : (s : Session C) → IsValid s → IsSound s
  IsValid-IsSound s v = record {
    in_phase = v.in_phase;
    delay_from = v.delay_from;
    delay_to = v.delay_to;
    closed_or = closing s v;
  }

  -- After any inputs to a new session: the channel `opened` has at most one value, and one as soon
  -- as the first connection has opened or failed, so no send blocks; the session
  -- has a server exactly while it serves a connection, and shows "open" to the page only then or
  -- after its goroutine has returned; the delay is between 1 and 30 seconds; and it shows "closed"
  -- exactly when it was closed, its context canceled.
  pub run-IsSound :
      (is : List (Input C)) (s : Session C) (calls : Calls C)
      → run is (some (new_session, [])) ≡ some (s, calls)
      → IsSound s
  unfolding Gives
  run-IsSound is s calls h =
      IsValid-IsSound s (subst Gives h (run-Gives is (some (new_session, [])) new_session-IsValid))
