-- ===== src/Browser/Session.antt =====
-- browser/session.go: the websocket of a page to one endpoint, with its redialing.
--
-- The goroutine `run` is a machine: `phase` says where in its loop it is, and an input is what it
-- waits for there, or a call of the page. The page's functions are of a type `C`. Form stores are
-- numbered in the order they are made. A step returns the calls of the page's functions, in order;
-- the code that a mutex guards, and the callbacks after it, are one step.
pub mod Subscriptions
pub mod Lifecycle
pub mod Backoff
pub mod Runs
pub mod Telling
mod Tests
use zugoui.Prelude.{
  ℕ, zero, suc, ◌+◌, ◌*◌, Text, List, [], ◌∷◌, ◌++◌, map, Assoc, lookup, insert, Bool, true, false,
  Option, none, some, leb, ◌==◌, if◌then◌else◌,
}

pub data SessionState : Type 0 where
  state_open : SessionState
  state_reconnecting : SessionState
  state_closed : SessionState

-- in seconds
abbrev pub min_redial : ℕ
min_redial = 1

abbrev pub max_redial : ℕ
max_redial = 30

-- How a connection ended: nil, or the error of `connection`; and errClosed.
pub data ConnError : Type 0 where
  err_closed : ConnError
  err_of : Text → ConnError

pub record Subscribers (C : Type 0) : Type 0 where
  pub next : ℕ
  pub cbs : List (ℕ × C)

module _ {C : Type 0} where
  unfoldable pub no_subscribers : Subscribers C
  no_subscribers = record { next = 0; cbs = [] }

  unfoldable pub add : C → Subscribers C → Subscribers C
  add cb s = record { next = s.next + 1; cbs = s.cbs ++ (s.next + 1, cb) ∷ [] }

  unfoldable pub without_id : ℕ → List (ℕ × C) → List (ℕ × C)
  without_id id [] = []
  without_id id ((i, cb) ∷ cbs) =
      let rest = without_id id cbs in if i == id then rest else (i, cb) ∷ rest

  unfoldable pub remove : ℕ → Subscribers C → Subscribers C
  unfolding without_id
  remove id s = record s { cbs = without_id id s.cbs }

  unfoldable pub clear : Subscribers C → Subscribers C
  clear s = record s { cbs = [] }

  unfoldable pub all : Subscribers C → List C
  all s = map (λ e. e.1) s.cbs

-- Where `run` is: in a call of s.connection before or after it connects, in the wait for the next
-- dial, or returned.
pub data Phase : Type 0 where
  dialing : Phase
  serving : Phase
  waiting : Phase
  returned : Phase

pub record Session (C : Type 0) : Type 0 where
  pub opened : List (Option ConnError)
  pub closed : Bool
  pub canceled : Bool
  pub state : SessionState
  pub server : Bool
  pub stores : Assoc ℕ
  pub stores_made : ℕ
  pub released : List ℕ
  pub state_subs : Subscribers C
  pub phase : Phase
  pub first : Bool
  pub delay : ℕ

pub data Input (C : Type 0) : Type 0 where
  connected : Input C
  dropped : Option ConnError → Input C
  delay_over : Input C
  context_done : Input C
  parent_canceled : Input C
  subscribe_state : C → Input C
  unsubscribe : ℕ → Input C
  form : Text → Input C
  close : Input C

abbrev pub Calls : Type 0 → Type 0
Calls C = List (C × SessionState)

same_state : SessionState → SessionState → Bool
same_state state_open state_open = true
same_state state_reconnecting state_reconnecting = true
same_state state_closed state_closed = true
same_state _ _ = false

or_closed : Option ConnError → ConnError
or_closed none = err_closed
or_closed (some e) = e

unfoldable pub next_delay : ℕ → ℕ
next_delay d = if leb (d * 2) max_redial then d * 2 else max_redial

module _ {C : Type 0} where
  unfoldable pub new_session : Session C
  unfolding no_subscribers
  new_session = record {
    opened = [];
    closed = false;
    canceled = false;
    state = state_reconnecting;
    server = false;
    stores = [];
    stores_made = 0;
    released = [];
    state_subs = no_subscribers;
    phase = dialing;
    first = true;
    delay = min_redial;
  }

  unfoldable pub set_state : SessionState → Session C → Session C × Calls C
  unfolding same_state all
  set_state st s =
      if same_state s.state st
      then (s, [])
      else if same_state s.state state_closed
      then (s, [])
      else (record s { state = st }, map (λ cb. (cb, st)) (all s.state_subs))

  store_in : Text → Option ℕ → Session C → Session C
  store_in name none s = record s {
    stores = insert name (s.stores_made + 1) s.stores;
    stores_made = s.stores_made + 1;
  }
  store_in name (some f) s = s

  unfoldable pub store : Text → Session C → Session C
  unfolding store_in
  store name s = store_in name (lookup name s.stores) s

  -- the body of closed.Do
  do_close : Session C × Calls C → Session C × Calls C
  unfolding clear
  do_close (s, calls) = (
    record s {
      closed = true;
      stores = [];
      released = s.released ++ map (λ e. e.1) s.stores;
      state_subs = clear s.state_subs;
    },
    calls,
  )

  unfoldable pub close_session : Session C → Session C × Calls C
  unfolding set_state do_close
  close_session s =
      if s.closed then (s, []) else do_close (set_state state_closed (record s { canceled = true }))

  -- the callback of s.connection, after s.server is set
  unfoldable pub on_connected : Session C → Session C × Calls C
  unfolding set_state
  on_connected s = set_state state_open (record s {
    server = true;
    phase = serving;
    delay = min_redial;
    first = false;
    opened = if s.first then s.opened ++ none ∷ [] else s.opened;
  })

  -- what follows the return of s.connection
  unfoldable pub on_dropped : Option ConnError → Session C → Session C × Calls C
  unfolding close_session set_state or_closed
  on_dropped err s =
      if s.first
      then close_session (record s {
        server = false;
        phase = returned;
        opened = s.opened ++ some (or_closed err) ∷ [];
      })
      else if s.canceled
      then (record s { server = false; phase = returned }, [])
      else set_state state_reconnecting (record s { server = false; phase = waiting })

  -- `none` for an input that `run` does not wait for in its phase
  run_step : Phase → Input C → Session C → Option (Session C × Calls C)
  unfolding on_connected on_dropped next_delay
  run_step dialing connected s = some (on_connected s)
  run_step dialing (dropped err) s = some (on_dropped err s)
  run_step serving (dropped err) s = some (on_dropped err s)
  run_step waiting delay_over s =
      some (record s { phase = dialing; delay = next_delay s.delay }, [])
  run_step waiting context_done s =
      if s.canceled then some (record s { phase = returned }, []) else none
  run_step _ _ s = none

  unfoldable pub step : Input C → Session C → Option (Session C × Calls C)
  unfolding run_step close_session add remove store
  step (subscribe_state cb) s = some (record s { state_subs = add cb s.state_subs }, [])
  step (unsubscribe id) s = some (record s { state_subs = remove id s.state_subs }, [])
  step (form name) s = some (store name s, [])
  step close s = some (close_session s)
  step parent_canceled s = some (record s { canceled = true }, [])
  step connected s = run_step s.phase connected s
  step (dropped err) s = run_step s.phase (dropped err) s
  step delay_over s = run_step s.phase delay_over s
  step context_done s = run_step s.phase context_done s

  then_calls : Calls C → Option (Session C × Calls C) → Option (Session C × Calls C)
  then_calls calls none = none
  then_calls calls (some (s, more)) = some (s, calls ++ more)

  -- the session after inputs, with the calls that it made
  unfoldable pub run : List (Input C) → Option (Session C × Calls C) → Option (Session C × Calls C)
  unfolding step then_calls
  run [] r = r
  run (i ∷ is) none = none
  run (i ∷ is) (some (s, calls)) = run is (then_calls calls (step i s))
