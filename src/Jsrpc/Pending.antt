-- ===== src/Jsrpc/Pending.antt =====
-- jsrpc/webserver.go: the values on their way to the server, which an action waits for.
--
-- What holds the mutex is one step: `add`, `done`, and a round of the loop of `wait`, which returns
-- or sleeps at the condition. A call of `wait` has a number, and is awake until a round ends it or
-- puts it to sleep.
pub mod Waking
mod Tests
use zugoui.Prelude.{
  ℕ, zero, suc, ◌+◌, List, [], ◌∷◌, ◌++◌, Bool, true, false, not, Option, none, some, select, ◌==◌,
  if◌then◌else◌,
}

-- `idle` says whether the condition is made.
pub record PendingSets : Type 0 where
  pub count : ℕ
  pub idle : Bool
  pub awake : List ℕ
  pub asleep : List ℕ
  pub returned : List ℕ

pub data Move : Type 0 where
  adds : Move
  finishes : Move
  waits : ℕ → Move
  goes_on : ℕ → Move

unfoldable pub no_sets : PendingSets
no_sets = record { count = 0; idle = false; awake = []; asleep = []; returned = [] }

-- add
unfoldable pub add : PendingSets → PendingSets
add p = record p { count = p.count + 1 }

broadcast : PendingSets → PendingSets
broadcast p = record p { awake = p.awake ++ p.asleep; asleep = [] }

-- done; it is called after add, so the count is not 0
unfoldable pub done : PendingSets → Option PendingSets
unfolding broadcast
done p = elim p.count [
  | zero ↦ none
  | suc n ↦
      let p' = record p { count = n } in
      some (if n == 0 then (if p.idle then broadcast p' else p') else p')
]

-- a round of the loop of wait, which makes the condition first
unfoldable pub wait_round : ℕ → PendingSets → PendingSets
wait_round i p =
    let p' = record p { idle = true; awake = select (λ j. not (j == i)) p.awake } in
    if p.count == 0
    then record p' { returned = i ∷ p.returned }
    else record p' { asleep = i ∷ p.asleep }

unfoldable pub is_in : ℕ → List ℕ → Bool
is_in i [] = false
is_in i (j ∷ js) = let rest = is_in i js in if j == i then true else rest

-- `none` where the move cannot be made
unfoldable pub step : Move → PendingSets → Option PendingSets
unfolding add done wait_round is_in
step adds p = some (add p)
step finishes p = done p
step (waits i) p = some (record p { awake = i ∷ p.awake })
step (goes_on i) p = if is_in i p.awake then some (wait_round i p) else none

unfoldable pub run : List Move → PendingSets → Option PendingSets
unfolding step
run [] p = some p
run (m ∷ ms) p = elim (step m p) [ none ↦ none | some p' ↦ run ms p' ]
