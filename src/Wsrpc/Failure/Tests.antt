-- ===== src/Wsrpc/Failure/Tests.antt =====
-- wsrpc/rpctypes/call.go: tests, and the theorems at concrete inputs.
use zugoui.Prelude.{ℕ, codes, none, some, ◌≡◌, refl}
use zugoui.Wsrpc.Failure.{
  GoError, plain, joins, validation, coded, no_errors, also, RpcError, code_invalid, code_of,
  rpc_error, new_error, action_error,
}

-- a field error with a code and a parameter
abbrev too_long : GoError ℕ
too_long = coded (codes "too long") (codes "tooLong") (some 20)

abbrev bad_form : GoError ℕ
bad_form = validation (codes "Name: too long") (also too_long no_errors)

validated :
    new_error (some bad_form)
    ≡ some (record { code = code_invalid; message = codes "Name: too long"; params = none })
unfolding new_error
validated = refl

-- errors.Join hides a failed validation: the code of a field stands for the whole
joined :
    code_of (joins (codes "Name: too long") (also bad_form no_errors)) ≡ (codes "tooLong", some 20)
unfolding code_of zugoui.Wsrpc.Failure.as_coded
joined = refl
