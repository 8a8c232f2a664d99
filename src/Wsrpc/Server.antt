-- ===== src/Wsrpc/Server.antt =====
-- wsrpc/rpc.go: the service that a server offers to the browser of a session.
--
-- The lock guards the maps, and an operation is one step. A call handler is a function from the
-- arguments to what it returns, fails with or panics with; `V` is the type of the values of type
-- `any`, `O` of the observers, and `P` of the parameters of an error's code. The encoder of JSON and
-- the quotes of fmt's %q are parameters.
pub mod Answers
pub mod Observers
mod Tests
use zugoui.Prelude.{
  Text, codes, List, [], ◌∷◌, ◌++◌, Assoc, lookup, insert, without, Option, none, some, ◌⊎◌, inl,
  inr,
}
use zugoui.Observable.Observe
use zugoui.Observable.Observe.{Observe, Event, add_observer, notify, set_value}
use zugoui.Wsrpc.Failure.{GoError, plain, RpcError, new_error, code_unknown_action}

-- What a handler does: it returns a value or an error, or it panics.
pub data CallOutcome (V P : Type 0) : Type 0 where
  returned : V → CallOutcome V P
  failed : GoError P → CallOutcome V P
  panicked : CallOutcome V P

abbrev pub CallFunc : Type 0 → Type 0 → Type 0
CallFunc V P = Text → CallOutcome V P

pub record Server (O V P : Type 0) : Type 0 where
  pub value_observers : Assoc (Observe O)
  pub action_observers : Observe O
  pub calls : Assoc (CallFunc V P)

pub record CallRes (P : Type 0) : Type 0 where
  pub value : Text
  pub error : Option (RpcError P)

module _ {O : Type 0} where
  -- the registry of an action, made on first use
  or_new : Option (Observe O) → Observe O
  unfolding Observe.new
  or_new none = Observe.new
  or_new (some o) = o

module _ {O V : Type 0} where
  told_by : Option (Observe O) → Event V → List (O × Event V)
  unfolding notify
  told_by none ev = []
  told_by (some o) ev = notify o ev

module _ {O V P : Type 0} where
  -- New
  unfoldable pub new_server : Server O V P
  new_server = record { value_observers = []; action_observers = Observe.new; calls = [] }

  unfoldable pub handle_call : Text → CallFunc V P → Server O V P → Server O V P
  handle_call action fn s = record s { calls = insert action fn s.calls }

  unfoldable pub release_calls : Server O V P → Server O V P
  release_calls s = record s { calls = [] }

  unfoldable pub add_value_observer : Text → O → Server O V P → Server O V P
  unfolding or_new add_observer
  add_value_observer action ob s = record s {
    value_observers =
        insert action (add_observer [] ob (or_new (lookup action s.value_observers)))
          s.value_observers;
  }

  unfoldable pub remove_value_observers : Text → Server O V P → Server O V P
  remove_value_observers action s = record s { value_observers = without action s.value_observers }

  unfoldable pub add_action_observer : O → Server O V P → Server O V P
  unfolding add_observer
  add_action_observer ob s = record s {
    action_observers = add_observer (codes "action") ob s.action_observers;
  }

  unfoldable pub release_action_observers : Server O V P → Server O V P
  unfolding Observe.release
  release_action_observers s = record s { action_observers = Observe.release s.action_observers }

  -- SetValue: the notifications that it makes
  unfoldable pub receive_value : Text → Text → V → Server O V P → List (O × Event V)
  unfolding told_by
  receive_value action key value s = told_by (lookup action s.value_observers) (set_value key value)

  -- Action, with the name as a value of type `any`
  unfoldable pub receive_action : (Text → V) → Text → Server O V P → List (O × Event V)
  unfolding notify
  receive_action of_text action s =
      notify s.action_observers (set_value (codes "action") (of_text action))

module _ {V P : Type 0} where
  -- call: a panic becomes an error
  unfoldable pub recovered : Text → CallOutcome V P → V ⊎ GoError P
  recovered action (returned v) = inl v
  recovered action (failed e) = inr e
  recovered action panicked = inr (plain (codes "action " ++ action ++ codes " failed"))

-- the answer for an action without a handler; `quote` makes the quotes of %q
pub unknown_action : {P : Type 0} → (Text → Text) → Text → CallRes P
unknown_action quote action = record {
  value = [];
  error = some (record {
    code = code_unknown_action;
    message = codes "unknown action " ++ quote action;
    params = none;
  });
}

-- `marshal` is json.Marshal, which returns bytes and an error
module _ {V P : Type 0} (marshal : V → Text × Option (GoError P)) where
  pub answer : V ⊎ GoError P → CallRes P
  unfolding new_error
  answer (inl v) = record { value = (marshal v).0; error = new_error (marshal v).1 }
  answer (inr e) = record { value = []; error = new_error (some e) }

  answer_by : (Text → Text) → Text → Text → Option (CallFunc V P) → CallRes P
  unfolding unknown_action answer recovered
  answer_by quote action args none = unknown_action quote action
  answer_by quote action args (some fn) = answer (recovered action (fn args))

  -- Call
  unfoldable pub call : {O : Type 0} → (Text → Text) → Text → Text → Server O V P → CallRes P
  unfolding answer_by
  call quote action args s = answer_by quote action args (lookup action s.calls)
