-- ===== src/Jsrpc/Pending/Tests.antt =====
-- jsrpc/webserver.go: tests, and the theorem at a concrete input.
use zugoui.Prelude.{List, [], ◌∷◌, some, ◌≡◌, refl, if◌then◌else◌, ◌==◌, true}
use zugoui.Jsrpc.Pending.{
  PendingSets, Move, adds, finishes, waits, goes_on, no_sets, is_in, step, run,
}
use zugoui.Jsrpc.Pending.Waking.{goes_on-returned}

-- an action waits for two values, and is woken by the end of the second
abbrev moves : List Move
moves = adds ∷ adds ∷ waits 7 ∷ goes_on 7 ∷ finishes ∷ finishes ∷ []

abbrev woken : PendingSets
woken = record { count = 0; idle = true; awake = 7 ∷ []; asleep = []; returned = [] }

moves-run : run moves no_sets ≡ some woken
unfolding run no_sets
moves-run = refl

goes_on-returned_example :
    (p' : PendingSets) × (step (goes_on 7) woken ≡ some p')
    × (p'.returned ≡ (if 0 == 0 then 7 ∷ [] else []))
    × (p'.asleep ≡ (if 0 == 0 then [] else 7 ∷ []))
unfolding is_in
goes_on-returned_example = goes_on-returned moves 7 woken moves-run refl
