-- ===== src/Wsrpc/Server/Tests.antt =====
-- wsrpc/rpc.go: tests, and the theorems at concrete inputs.
use zugoui.Prelude.{
  ℕ, Text, codes, text_eq, [], ◌∷◌, ◌++◌, List, map, lookup, Option, none, some, ◌⊎◌, ◌≡◌, refl,
  if◌then◌else◌,
}
use zugoui.Prelude.Decimal.{itoa}
use zugoui.Prelude.Int.{pos}
use zugoui.Observable.Observe.{set_value}
use zugoui.Wsrpc.Failure.{GoError}
use zugoui.Wsrpc.Server.{
  CallFunc, Server, returned, panicked, new_server, handle_call, call, receive_value,
}
use zugoui.Wsrpc.Server.Answers.{Succeeds, Fails, call-Succeeds}
use zugoui.Wsrpc.Server.Observers.{Op, adds, removes, run, watching, receive_value-run}

-- numbers are encoded in decimal
abbrev marshal : ℕ → Text × Option (GoError ℕ)
marshal n = (itoa (pos n), none)

abbrev quote : Text → Text
quote t = b'"' ∷ t ++ b'"' ∷ []

-- the number of bytes of the arguments, and a panic where there are none
counting : CallFunc ℕ ℕ
counting [] = panicked
counting (b ∷ args) = returned 7

abbrev shop : Server ℕ ℕ ℕ
shop = handle_call (codes "count") counting new_server

counted :
    call marshal quote (codes "count") (codes "{}") shop
    ≡ record { value = codes "7"; error = none }
unfolding call lookup handle_call zugoui.Prelude.insert new_server text_eq counting itoa
counted = refl

crashed : (call marshal quote (codes "count") [] shop).value ≡ []
unfolding call lookup handle_call zugoui.Prelude.insert new_server text_eq counting
crashed = refl

call-Succeeds_example :
    Succeeds marshal quote
      (lookup (codes "count") shop.calls)
      []
      (call marshal quote (codes "count") [] shop)
    ⊎ Fails marshal quote (call marshal quote (codes "count") [] shop)
call-Succeeds_example = call-Succeeds marshal quote (codes "count") [] shop

abbrev calls : List (Op ℕ)
calls =
    adds (codes "a") 1
    ∷ adds (codes "b") 2
    ∷ removes (codes "a")
    ∷ adds (codes "a") 3
    ∷ adds (codes "a") 4
    ∷ []

abbrev name_key : Text
name_key = b'N' ∷ codes "ame"

receive_value-run_example :
    receive_value (codes "a") name_key 9 (run calls (new_server {V = ℕ} {P = ℕ}))
    ≡ (3, set_value name_key 9) ∷ (4, set_value name_key 9) ∷ []
unfolding watching text_eq
receive_value-run_example = receive_value-run {V = ℕ} ℕ calls (codes "a") b'N' (codes "ame") 9
