-- ===== src/Browser/Session/Telling.antt =====
-- browser/session.go: what the subscribers of a session are told.
use zugoui.Prelude.{
  ℕ, [], map, Bool, true, false, Option, none, some, if◌then◌else◌, ◌≡◌, ◌≢◌, ◌⊎◌, inl, inr, refl,
  sym, subst, Text, lookup, Bool-cases,
}
use zugoui.Browser.Session.{
  Session, SessionState, state_open, state_reconnecting, state_closed, Phase, waiting, dialing,
  serving, returned, Input, connected, dropped, delay_over, context_done, parent_canceled,
  subscribe_state, unsubscribe, form, close, ConnError, step, run_step, on_connected, on_dropped,
  set_state, close_session, do_close, Calls, all, same_state, store, store_in,
}

module _ {C : Type 0} where
  -- The calls that a step from `s` makes: each subscriber of `s` hears of a change of state, once,
  -- with the new state, and of nothing else.
  abbrev pub Tells : Session C → Session C × Calls C → Type 0
  Tells s r =
      ((r.0.state ≡ s.state) × (r.1 ≡ []))
      ⊎ ((r.0.state ≢ s.state)
          × (s.state ≢ state_closed)
          × (r.1 ≡ map (λ cb. (cb, r.0.state)) (all s.state_subs)))

  abbrev pub MayTell : Session C → Option (Session C × Calls C) → Type 0
  MayTell s none = Unit
  MayTell s (some r) = Tells s r

  set_state-Tells : (x st : SessionState) (s : Session C) → s.state ≡ x → Tells s (set_state st s)
  unfolding set_state same_state
  set_state-Tells state_closed state_closed s e = rw e (inl (refl, refl))
  set_state-Tells state_closed state_open s e = rw e (inl (refl, refl))
  set_state-Tells state_closed state_reconnecting s e = rw e (inl (refl, refl))
  set_state-Tells state_open state_closed s e = rw e (inr (λ h. cc, λ h. cc, refl))
  set_state-Tells state_open state_open s e = rw e (inl (refl, refl))
  set_state-Tells state_open state_reconnecting s e = rw e (inr (λ h. cc, λ h. cc, refl))
  set_state-Tells state_reconnecting state_closed s e = rw e (inr (λ h. cc, λ h. cc, refl))
  set_state-Tells state_reconnecting state_open s e = rw e (inr (λ h. cc, λ h. cc, refl))
  set_state-Tells state_reconnecting state_reconnecting s e = rw e (inl (refl, refl))

  close_session-Tells : (s : Session C) → Tells s (close_session s)
  unfolding close_session do_close
  close_session-Tells s = elim (Bool-cases s.closed) [
    | inl e ↦
        subst (λ (b : Bool). Tells s (if b then (s, []) else closing s)) (sym e) (inl (refl, refl))
    | inr e ↦
        subst (λ (b : Bool). Tells s (if b then (s, []) else closing s)) (sym e)
          (set_state-Tells s.state state_closed (record s { canceled = true }) refl)
  ]
    where
      closing : Session C → Session C × Calls C
      closing s = do_close (set_state state_closed (record s { canceled = true }))

  on_connected-Tells : (s : Session C) → Tells s (on_connected s)
  unfolding on_connected
  on_connected-Tells s = set_state-Tells s.state state_open _ refl

  -- the three ends of a connection, by the tests of the source
  by_tests :
      (first canceled : Bool) (s : Session C) (a b c : Session C × Calls C)
      → Tells s a
      → Tells s b
      → Tells s c
      → Tells s (if first then a else if canceled then b else c)
  by_tests true canceled s a b c p q r = p
  by_tests false true s a b c p q r = q
  by_tests false false s a b c p q r = r

  on_dropped-Tells : (err : Option ConnError) (s : Session C) → Tells s (on_dropped err s)
  unfolding on_dropped
  on_dropped-Tells err s =
      by_tests s.first s.canceled s _ _ _ (close_session-Tells _) (inl (refl, refl))
        (set_state-Tells s.state state_reconnecting _ refl)

  store-Tells : (name : Text) (s : Session C) → Tells s (store name s, [])
  unfolding store store_in
  store-Tells name s = made (lookup name s.stores)
    where
      made : (found : Option ℕ) → Tells s (store_in name found s, [])
      made none = inl (refl, refl)
      made (some f) = inl (refl, refl)

  woken :
      (s : Session C) (b : Bool)
      → MayTell s (if b then some (record s { phase = returned }, []) else none)
  woken s true = inl (refl, refl)
  woken s false = tt

  run_step-MayTell : (p : Phase) (i : Input C) (s : Session C) → MayTell s (run_step p i s)
  unfolding run_step
  run_step-MayTell dialing connected s = on_connected-Tells s
  run_step-MayTell dialing (dropped err) s = on_dropped-Tells err s
  run_step-MayTell serving (dropped err) s = on_dropped-Tells err s
  run_step-MayTell waiting delay_over s = inl (refl, refl)
  run_step-MayTell waiting context_done s = woken s s.canceled
  run_step-MayTell _ _ s = tt

  step-MayTell : (i : Input C) (s : Session C) → MayTell s (step i s)
  unfolding step
  step-MayTell connected s = run_step-MayTell s.phase connected s
  step-MayTell (dropped err) s = run_step-MayTell s.phase (dropped err) s
  step-MayTell delay_over s = run_step-MayTell s.phase delay_over s
  step-MayTell context_done s = run_step-MayTell s.phase context_done s
  step-MayTell parent_canceled s = inl (refl, refl)
  step-MayTell (subscribe_state cb) s = inl (refl, refl)
  step-MayTell (unsubscribe id) s = inl (refl, refl)
  step-MayTell (form name) s = store-Tells name s
  step-MayTell close s = close_session-Tells s

  -- A step either leaves the state and calls nobody, or changes the state, which was not "closed",
  -- and calls each subscriber that there was before the step once with the new state.
  pub step-Tells :
      (i : Input C) (s s' : Session C) (calls : Calls C)
      → step i s ≡ some (s', calls)
      → Tells s (s', calls)
  step-Tells i s s' calls h = subst (MayTell s) h (step-MayTell i s)
