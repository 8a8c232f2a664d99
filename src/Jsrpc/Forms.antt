-- ===== src/Jsrpc/Forms.antt =====
-- jsrpc/goui.go and jsrpc/browser.go: pages that wait for a form to be bound, and event listeners.
--
-- A page that asks for a form looks it up and, while it is not there, blocks on the channel
-- `formAdded`, which holds one signal. A move is a step of one waiter, or of the service.
pub mod Waiting
pub mod Listeners
mod Tests
use zugoui.Prelude.{
  ℕ, Text, text_eq, List, [], ◌∷◌, ◌++◌, Bool, true, false, not, ◌||◌, Option, none, some, select,
  get_elem?, set, Assoc, lookup, insert, if◌then◌else◌,
}
use zugoui.Prelude.Eq.{Eq}

-- where a call of bindingsFor is: before a lookup, at the channel, or returned, with the bindings or
-- with ErrClosing
pub data Status : Type 0 where
  looking : Status
  blocked : Status
  resolved : Status
  failed : Status

pub record System : Type 0 where
  pub forms : List Text
  pub form_added : Bool
  pub closed : Bool
  pub waiters : List (Text × Status)

pub data Move : Type 0 where
  looks : ℕ → Move
  wakes : ℕ → Move
  stores : Text → Move
  forgets : Text → Move
  closes : Move

unfoldable pub is_known : Text → List Text → Bool
is_known f [] = false
is_known f (g ∷ gs) = text_eq g f || is_known f gs

-- formIDs.Load
look_at : Option (Text × Status) → ℕ → System → Option System
unfolding is_known
look_at (some (f, looking)) i s =
    some
      (record s { waiters = set s.waiters i (f, if is_known f s.forms then resolved else blocked) })
look_at _ i s = none

-- <-b.formAdded, which gives a signal that is left before it reports the close
wake_at : Option (Text × Status) → ℕ → System → Option System
wake_at (some (f, blocked)) i s =
    if s.form_added
    then some (record s { form_added = false; waiters = set s.waiters i (f, looking) })
    else if s.closed
    then some (record s { waiters = set s.waiters i (f, failed) })
    else none
wake_at _ i s = none

-- `none` where the move cannot be made, or panics on the closed channel
unfoldable pub step : Move → System → Option System
unfolding look_at wake_at
step (looks i) s = look_at (get_elem? s.waiters i) i s
step (wakes i) s = wake_at (get_elem? s.waiters i) i s
step (stores f) s =
    if s.closed then none else some (record s { forms = f ∷ s.forms; form_added = true })
step (forgets f) s = some (record s { forms = select (λ g. not (text_eq g f)) s.forms })
step closes s = if s.closed then none else some (record s { closed = true })

then_step : Move → Option System → Option System
unfolding step
then_step m none = none
then_step m (some s) = step m s

unfoldable pub run : List Move → Option System → Option System
unfolding then_step
run [] r = r
run (m ∷ ms) r = run ms (then_step m r)

-- pages that ask for some forms before any is bound
unfoldable pub asking : List (Text × Status) → System
asking waiters = record { forms = []; form_added = false; closed = false; waiters = waiters }

-- listeners[typ], nil for a missing type
or_no_listeners : {C : Type 0} → Option (List C) → List C
or_no_listeners none = []
or_no_listeners (some cs) = cs

unfoldable pub listeners_of : {C : Type 0} → Text → Assoc (List C) → List C
unfolding or_no_listeners
listeners_of typ m = or_no_listeners (lookup typ m)

-- the list without its first element that equals a callback
unfoldable pub without_first : {C : Type 0} ⦃e : Eq C⦄ → C → List C → List C
without_first cb [] = []
without_first ⦃e⦄ cb (c ∷ cs) = if e.beq c cb then cs else c ∷ without_first cb cs

-- addEventListener
unfoldable pub add_event_listener : {C : Type 0} → Text → C → Assoc (List C) → Assoc (List C)
unfolding listeners_of
add_event_listener typ cb m = insert typ (listeners_of typ m ++ cb ∷ []) m

-- removeEventListener; a list without the callback is left as it is
unfoldable pub remove_event_listener :
    {C : Type 0} ⦃e : Eq C⦄ → Text → C → Assoc (List C) → Assoc (List C)
unfolding listeners_of without_first
remove_event_listener typ cb m = insert typ (without_first cb (listeners_of typ m)) m

-- DispatchEvent: the callbacks that it calls
unfoldable pub dispatch_event : {C : Type 0} → Text → Assoc (List C) → List C
unfolding listeners_of
dispatch_event typ m = listeners_of typ m
