-- ===== src/Browser/Session/Lifecycle.antt =====
-- browser/session.go: what each operation keeps true of a session.
use zugoui.Prelude.{
  ◌≤◌, [], ◌∷◌, ◌++◌, map, length, true, false, Option, none, some, if◌then◌else◌, ◌≡◌, ◌≢◌, inl,
  inr, refl, subst, arith, Bool-cases, length-append,
}
use zugoui.Browser.Session.{
  Session, SessionState, state_open, state_reconnecting, state_closed, Phase, waiting, dialing,
  serving, returned, ConnError, on_connected, on_dropped, set_state, close_session, same_state,
  clear, do_close, or_closed,
}

module _ {C : Type 0} where
  -- What the goroutine has told `start`, and what the page sees, in each phase. The channel `opened`
  -- holds one value at most, so no send of the goroutine blocks.
  abbrev pub InPhase : Phase → Session C → Type 0
  InPhase dialing s =
      (length s.opened ≡ (if s.first then 0 else 1)) × (s.server ≡ false) × (s.state ≢ state_open)
  InPhase serving s =
      (length s.opened ≡ 1) × (s.first ≡ false) × (s.server ≡ true) × (s.state ≢ state_reconnecting)
  InPhase waiting s =
      (length s.opened ≡ 1) × (s.first ≡ false) × (s.server ≡ false) × (s.state ≢ state_open)
  InPhase returned s = (length s.opened ≡ 1) × (s.server ≡ false) × (s.canceled ≡ true)

  pub record IsValid (s : Session C) : Type 0 where
    pub in_phase : InPhase s.phase s
    pub delay_from : 1 ≤ s.delay
    pub delay_to : s.delay ≤ 30
    pub closed_state : (s.closed ≡ true) → s.state ≡ state_closed
    pub state_closed' : s.state ≡ state_closed → s.closed ≡ true
    pub closed_canceled : (s.closed ≡ true) → s.canceled ≡ true

-- the state that setState leaves
told : SessionState → SessionState → SessionState
told state_closed st = state_closed
told state_open st = st
told state_reconnecting st = st

told-open : (x : SessionState) → told x state_open ≢ state_reconnecting
unfolding told
told-open state_closed h = cc
told-open state_open h = cc
told-open state_reconnecting h = cc

told-reconnecting : (x : SessionState) → told x state_reconnecting ≢ state_open
unfolding told
told-reconnecting state_closed h = cc
told-reconnecting state_open h = cc
told-reconnecting state_reconnecting h = cc

-- a state that is not closed stays so, unless it is told to close
told-keeps : (x st : SessionState) → st ≢ state_closed → told x st ≡ state_closed → x ≡ state_closed
unfolding told
told-keeps state_closed st n h = refl
told-keeps state_open st n h = absurd (n h)
told-keeps state_reconnecting st n h = absurd (n h)

told-stays : (x st : SessionState) → x ≡ state_closed → told x st ≡ state_closed
unfolding told
told-stays state_closed st h = refl
told-stays state_open st h = cc
told-stays state_reconnecting st h = cc

module _ {C : Type 0} where
  set_state_from :
      (x st : SessionState) (s : Session C)
      → s.state ≡ x
      → (set_state st s).0 ≡ record s { state = told x st }
  unfolding set_state same_state told
  set_state_from state_closed state_closed s e = rw e refl
  set_state_from state_closed state_open s e = rw e refl
  set_state_from state_closed state_reconnecting s e = rw e refl
  set_state_from state_open state_closed s e = rw e refl
  set_state_from state_open state_open s e = rw e refl
  set_state_from state_open state_reconnecting s e = rw e refl
  set_state_from state_reconnecting state_closed s e = rw e refl
  set_state_from state_reconnecting state_open s e = rw e refl
  set_state_from state_reconnecting state_reconnecting s e = rw e refl

  set_state-told :
      (st : SessionState) (s : Session C)
      → (set_state st s).0 ≡ record s { state = told s.state st }
  set_state-told st s = set_state_from s.state st s refl

  pub on_connected-IsValid :
      (s : Session C) → s.phase ≡ dialing → IsValid s → IsValid (on_connected s).0
  unfolding on_connected
  on_connected-IsValid s p v =
      let (len, off, away) = subst (λ x. InPhase x s) p v.in_phase in
      rw (set_state-told) (record {
        in_phase =
            (ground (arith, length-append s.opened (none ∷ [])), refl, refl, told-open s.state);
        delay_from = omega arith;
        delay_to = omega arith;
        closed_state = λ h. told-stays s.state state_open (v.closed_state h);
        state_closed' = λ h. v.state_closed' (told-keeps s.state state_open (λ e. cc) h);
        closed_canceled = v.closed_canceled;
      })

module _ {C : Type 0} where
  -- what close leaves, where it was not called before
  abbrev pub after_close : Session C → Session C
  after_close s = record s {
    canceled = true;
    state = state_closed;
    closed = true;
    stores = [];
    released = s.released ++ map (λ e. e.1) s.stores;
    state_subs = clear s.state_subs;
  }

  close_session_from :
      (x : SessionState) (s : Session C)
      → s.state ≡ x
      → s.closed ≡ false
      → (close_session s).0 ≡ after_close s
  unfolding close_session do_close set_state same_state
  close_session_from state_open s q e = rw (q, e) refl
  close_session_from state_reconnecting s q e = rw (q, e) refl
  close_session_from state_closed s q e = rw (q, e) refl

  close_session-after_close :
      (s : Session C) → s.closed ≡ false → (close_session s).0 ≡ after_close s
  close_session-after_close s e = close_session_from s.state s refl e

  -- what a drop leaves that is dialed again
  redialed_from :
      (x : SessionState) (err : Option ConnError) (s : Session C)
      → s.state ≡ x
      → s.first ≡ false
      → s.canceled ≡ false
      → (on_dropped err s).0
        ≡ record s { server = false; phase = waiting; state = told s.state state_reconnecting }
  unfolding on_dropped set_state same_state told
  redialed_from state_open err s q e c = rw (q, e, c) refl
  redialed_from state_reconnecting err s q e c = rw (q, e, c) refl
  redialed_from state_closed err s q e c = rw (q, e, c) refl

  close_session-closed : (s : Session C) → s.closed ≡ true → close_session s ≡ (s, [])
  unfolding close_session
  close_session-closed s e = rw e refl

  InPhase-after_close : (s : Session C) (p : Phase) → InPhase p s → InPhase p (after_close s)
  InPhase-after_close s dialing (len, off, away) = (len, off, λ h. cc)
  InPhase-after_close s serving (len, old, on, away) = (len, old, on, λ h. cc)
  InPhase-after_close s waiting (len, old, off, away) = (len, old, off, λ h. cc)
  InPhase-after_close s returned (len, off, ended) = (len, off, refl)

  -- close of a session that may not have been valid for its phase, until it was closed
  close_session-IsValid :
      (s : Session C)
      → (s.closed ≡ true → IsValid s)
      → InPhase s.phase (after_close s)
      → 1 ≤ s.delay
      → s.delay ≤ 30
      → IsValid (close_session s).0
  close_session-IsValid s v p from to = elim (Bool-cases s.closed) [
    | inl e ↦ rw (close_session-closed s e) (v e)
    | inr e ↦ rw (close_session-after_close s e) (record {
      in_phase = p;
      delay_from = from;
      delay_to = to;
      closed_state = λ h. refl;
      state_closed' = λ h. refl;
      closed_canceled = λ h. refl;
    })
  ]

  pub close-IsValid : (s : Session C) → IsValid s → IsValid (close_session s).0
  close-IsValid s v =
      close_session-IsValid s (λ e. v) (InPhase-after_close s s.phase v.in_phase) v.delay_from
        v.delay_to

  -- the session after the return of s.connection, before the code looks at `first`
  pub on_dropped-IsValid :
      (err : Option ConnError) (s : Session C)
      → length s.opened ≡ (if s.first then 0 else 1)
      → IsValid s
      → IsValid (on_dropped err s).0
  unfolding on_dropped
  on_dropped-IsValid err s len v = elim (Bool-cases s.first) [
    | inl e ↦ rw e (
        close_session-IsValid _
          (λ h. record {
            in_phase = (opened_first e, refl, v.closed_canceled h);
            delay_from = v.delay_from;
            delay_to = v.delay_to;
            closed_state = v.closed_state;
            state_closed' = v.state_closed';
            closed_canceled = v.closed_canceled;
          })
          (opened_first e, refl, refl) v.delay_from v.delay_to)
    | inr e ↦ elim (Bool-cases s.canceled) [
      | inl c ↦
          rw (e, c)
            (record {
              in_phase = (ground arith, refl, refl);
              delay_from = v.delay_from;
              delay_to = v.delay_to;
              closed_state = v.closed_state;
              state_closed' = v.state_closed';
              closed_canceled = λ h. refl;
            })
      | inr c ↦ rw (redialed_from s.state err s refl e c) (record {
        in_phase = (ground arith, e, refl, told-reconnecting s.state);
        delay_from = v.delay_from;
        delay_to = v.delay_to;
        closed_state = λ h. told-stays s.state state_reconnecting (v.closed_state h);
        state_closed' = λ h. v.state_closed' (told-keeps s.state state_reconnecting (λ q. cc) h);
        closed_canceled = v.closed_canceled;
      })
    ]
  ]
    where
      opened_first : s.first ≡ true → length (s.opened ++ some (or_closed err) ∷ []) ≡ 1
      opened_first e = ground (arith, length-append s.opened (some (or_closed err) ∷ []))
