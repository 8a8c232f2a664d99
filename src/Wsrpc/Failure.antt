-- ===== src/Wsrpc/Failure.antt =====
-- wsrpc/rpctypes/call.go, wsrpc/rpctypes/codes.go and controller/errors.go: the error that a page
-- receives for an error of the program.
--
-- An error is what the package errors sees of it: its text, what it unwraps to, whether it is a
-- ValidationError and whether it has a code. `P` is the type of the parameters of a code. A
-- ValidationError unwraps to its values, in the order in which Go ranges over the map.
pub mod Codes
mod Tests
use zugoui.Prelude.{Text, codes, [], ◌∷◌, Bool, true, false, Option, none, some, if◌then◌else◌}

mutual
  -- `coded` is an error with a Code method that unwraps to nothing, and `coded_over` one that
  -- unwraps to an error; `none` where it has no Params method.
  pub data GoError (P : Type 0) : Type 0 where
    plain : Text → GoError P
    wraps : Text → GoError P → GoError P
    joins : Text → GoErrors P → GoError P
    validation : Text → GoErrors P → GoError P
    coded : Text → Text → Option P → GoError P
    coded_over : Text → Text → Option P → GoError P → GoError P

  pub data GoErrors (P : Type 0) : Type 0 where
    no_errors : GoErrors P
    also : GoError P → GoErrors P → GoErrors P

-- rpctypes.Error
pub record RpcError (P : Type 0) : Type 0 where
  pub code : Text
  pub message : Text
  pub params : Option P

abbrev pub code_failed : Text
code_failed = codes "failed"

abbrev pub code_invalid : Text
code_invalid = codes "invalid"

abbrev pub code_unknown_action : Text
code_unknown_action = codes "unknownAction"

abbrev pub code_disconnected : Text
code_disconnected = codes "disconnected"

module _ {P : Type 0} where
  -- err.Error()
  unfoldable pub message_of : GoError P → Text
  message_of (plain m) = m
  message_of (wraps m e) = m
  message_of (joins m es) = m
  message_of (validation m es) = m
  message_of (coded m c p) = m
  message_of (coded_over m c p e) = m

  or_else : Option (Text × Option P) → Option (Text × Option P) → Option (Text × Option P)
  or_else none other = other
  or_else (some found) other = some found

unfoldable mutual
  unfolding or_else

  -- errors.AsType[codedError]: the first error with a code, depth first
  pub as_coded : {P : Type 0} → GoError P → Option (Text × Option P)
  as_coded (plain m) = none
  as_coded (wraps m e) = as_coded e
  as_coded (joins m es) = as_coded_in es
  as_coded (validation m es) = as_coded_in es
  as_coded (coded m c p) = some (c, p)
  as_coded (coded_over m c p e) = some (c, p)

  pub as_coded_in : {P : Type 0} → GoErrors P → Option (Text × Option P)
  as_coded_in no_errors = none
  as_coded_in (also e es) = or_else (as_coded e) (as_coded_in es)

is_empty : Text → Bool
is_empty [] = true
is_empty (b ∷ t) = false

module _ {P : Type 0} where
  -- invalid; errors.Unwrap of an error that unwraps to a list is nil
  unfoldable pub invalid : GoError P → Bool
  unfolding is_empty
  invalid (plain m) = false
  invalid (wraps m e) = invalid e
  invalid (joins m es) = false
  invalid (validation m es) = true
  invalid (coded m c p) = false
  invalid (coded_over m c p e) = let rest = invalid e in if is_empty c then rest else false

  -- the code and the parameters of an error that is not invalid
  code_by : Option (Text × Option P) → Text × Option P
  code_by none = (code_failed, none)
  code_by (some ([], p)) = (code_failed, none)
  code_by (some (b ∷ c, p)) = (b ∷ c, p)

  unfoldable pub code_of : GoError P → Text × Option P
  unfolding invalid code_by
  code_of e = if invalid e then (code_invalid, none) else code_by (as_coded e)

  -- NewError of an error that is not nil
  unfoldable pub rpc_error : GoError P → RpcError P
  unfolding code_of message_of
  rpc_error e = record { code = (code_of e).0; message = message_of e; params = (code_of e).1 }

  -- NewError
  unfoldable pub new_error : Option (GoError P) → Option (RpcError P)
  unfolding rpc_error
  new_error none = none
  new_error (some e) = some (rpc_error e)

  -- ActionError
  unfoldable pub action_error : Text → GoError P → GoError P
  unfolding message_of
  action_error code err = coded_over (message_of err) code none err
