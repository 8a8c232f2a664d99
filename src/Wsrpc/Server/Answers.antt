-- ===== src/Wsrpc/Server/Answers.antt =====
-- wsrpc/rpc.go: what a page learns of a call.
use zugoui.Prelude.{Text, [], lookup, Option, none, some, ◌⊎◌, inl, inr, ◌≡◌, ◌≢◌, refl, ap}
use zugoui.Wsrpc.Failure.{GoError, RpcError, new_error, rpc_error}
use zugoui.Wsrpc.Failure.Codes.{code_of-ne-nil}
use zugoui.Wsrpc.Server.{
  CallOutcome, returned, failed, panicked, CallFunc, Server, CallRes, call, answer_by, answer,
  recovered, unknown_action,
}

module _ {V P : Type 0} (marshal : V → Text × Option (GoError P)) (quote : Text → Text) where
  -- The handler returned a value that could be encoded, and the answer is that.
  abbrev pub Succeeds : Option (CallFunc V P) → Text → CallRes P → Type 0
  Succeeds handler args r =
      (fn : CallFunc V P) × (v : V) × (handler ≡ some fn)
      × (fn args ≡ returned v)
      × ((marshal v).1 ≡ none)
      × (r.error ≡ none)
      × (r.value ≡ (marshal v).0)

  -- The answer has an error, with a code.
  abbrev pub Fails : CallRes P → Type 0
  Fails r = (e : RpcError P) × (r.error ≡ some e) × (e.code ≢ [])

  encoded :
      (fn : CallFunc V P) (args : Text) (v : V) (err : Option (GoError P))
      → fn args ≡ returned v
      → (marshal v).1 ≡ err
      → Succeeds (some fn) args (answer marshal (inl v)) ⊎ Fails (answer marshal (inl v))
  unfolding answer new_error rpc_error
  encoded fn args v none h m = inl (fn, v, refl, h, m, ap new_error m, refl)
  encoded fn args v (some e) h m = inr (rpc_error e, ap new_error m, code_of-ne-nil e)

  refused : (e : GoError P) → Fails (answer marshal (inr e))
  unfolding answer new_error rpc_error
  refused e = (rpc_error e, refl, code_of-ne-nil e)

  by_outcome :
      (action args : Text) (fn : CallFunc V P) (o : CallOutcome V P)
      → fn args ≡ o
      → Succeeds (some fn) args (answer marshal (recovered action o))
        ⊎ Fails (answer marshal (recovered action o))
  unfolding recovered
  by_outcome action args fn (returned v) h = encoded fn args v (marshal v).1 h refl
  by_outcome action args fn (failed e) h = inr (refused e)
  by_outcome action args fn panicked h = inr (refused _)

  by_handler :
      (action args : Text) (handler : Option (CallFunc V P))
      → Succeeds handler args (answer_by marshal quote action args handler)
        ⊎ Fails (answer_by marshal quote action args handler)
  unfolding answer_by unknown_action
  by_handler action args none = inr (_, refl, λ h. cc)
  by_handler action args (some fn) = by_outcome action args fn (fn args) refl

  -- Every call is answered. Either its action has a handler, which returns a value that can be
  -- encoded, and the answer is the encoding and no error, or the answer has an error with a code
  -- that is not empty.
  pub call-Succeeds :
      {O : Type 0} (action args : Text) (s : Server O V P)
      → Succeeds (lookup action s.calls) args (call marshal quote action args s)
        ⊎ Fails (call marshal quote action args s)
  unfolding call
  call-Succeeds action args s = by_handler action args (lookup action s.calls)
