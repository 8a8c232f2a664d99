-- ===== src/Jsrpc/Pending/Waking.antt =====
-- jsrpc/webserver.go: a call of wait sleeps only while values are on their way.
use zugoui.Prelude.{
  ℕ, zero, suc, List, [], ◌∷◌, Bool, true, false, Option, none, some, ◌≡◌, ◌≢◌, refl, ◌==◌, select,
  not, subst, Bool-cases, inl, inr, if◌then◌else◌, arith,
}
use zugoui.Jsrpc.Pending.{
  PendingSets, Move, adds, finishes, waits, goes_on, no_sets, add, broadcast, done, wait_round,
  is_in, step, run,
}

-- A call that sleeps sleeps at a condition that `done` will broadcast.
abbrev Sleeps : PendingSets → Type 0
Sleeps p = p.asleep ≢ [] → (p.idle ≡ true) × (p.count ≢ 0)

abbrev MaySleep : Option PendingSets → Type 0
MaySleep none = Unit
MaySleep (some p) = Sleeps p

done-MaySleep : (n : ℕ) (p : PendingSets) → p.count ≡ n → Sleeps p → MaySleep (done p)
unfolding done broadcast
done-MaySleep zero p e h = rw e tt
done-MaySleep (suc n) p e h = rw e (by_test (n == 0) p.idle refl refl)
  where
    p' : PendingSets
    p' = record p { count = n }

    by_test :
        (b c : Bool)
        → (n == 0) ≡ b
        → p.idle ≡ c
        → Sleeps (if b then (if c then broadcast p' else p') else p')
    by_test true true t i ne = absurd (ne refl)
    by_test true false t i ne = let u = (h ne).0 in absurd cc
    by_test false c t i ne = ((h ne).0, ground arith)

round-MaySleep : (i : ℕ) (p : PendingSets) → Sleeps p → Sleeps (wait_round i p)
unfolding wait_round
round-MaySleep i p h = by_test (p.count == 0) refl
  where
    p' : PendingSets
    p' = record p { idle = true; awake = select (λ j. not (j == i)) p.awake }

    by_test :
        (b : Bool)
        → (p.count == 0) ≡ b
        → Sleeps (
            if b
            then record p' { returned = i ∷ p.returned }
            else record p' { asleep = i ∷ p.asleep })
    by_test true t ne = (refl, (h ne).1)
    by_test false t ne = (refl, λ z. ground arith)

step-MaySleep : (m : Move) (p : PendingSets) → Sleeps p → MaySleep (step m p)
unfolding step add
step-MaySleep adds p h = λ n. ((h n).0, λ e. absurd (omega arith))
step-MaySleep finishes p h = done-MaySleep p.count p refl h
step-MaySleep (waits i) p h = h
step-MaySleep (goes_on i) p h = by_test (is_in i p.awake)
  where
    by_test : (b : Bool) → MaySleep (if b then some (wait_round i p) else none)
    by_test true = round-MaySleep i p h
    by_test false = tt

run-MaySleep : (ms : List Move) (p : PendingSets) → Sleeps p → MaySleep (run ms p)
unfolding run
run-MaySleep [] p h = h
run-MaySleep (m ∷ ms) p h =
    rest_of (step m p) (step-MaySleep m p h) (λ p' h'. run-MaySleep ms p' h')
  where
    rest_of :
        (x : Option PendingSets)
        → MaySleep x
        → ((p' : PendingSets) → Sleeps p' → MaySleep (run ms p'))
        → MaySleep (elim x [ none ↦ none | some p' ↦ run ms p' ])
    rest_of none h ih = tt
    rest_of (some p') h ih = ih p' h

no_sets-Sleeps : Sleeps no_sets
unfolding no_sets
no_sets-Sleeps ne = absurd (ne refl)

none_asleep : (p : PendingSets) → Sleeps p → p.count ≡ 0 → p.asleep ≡ []
none_asleep p h e = by_list p.asleep refl
  where
    by_list : (l : List ℕ) → p.asleep ≡ l → l ≡ []
    by_list [] q = refl
    by_list (i ∷ l) q = absurd ((h (λ n. absurd cc)).1 e)

-- After any moves, when no value is on its way to the server, no call of `wait` sleeps, and the
-- next round of each call that is awake returns; while a value is on its way, it sleeps and does
-- not return.
pub goes_on-returned :
    (ms : List Move) (i : ℕ) (p : PendingSets)
    → run ms no_sets ≡ some p
    → is_in i p.awake ≡ true
    → (p' : PendingSets) × (step (goes_on i) p ≡ some p')
      × (p'.returned ≡ (if p.count == 0 then i ∷ p.returned else p.returned))
      × (p'.asleep ≡ (if p.count == 0 then [] else i ∷ p.asleep))
unfolding step wait_round
goes_on-returned ms i p e a =
    let h = subst MaySleep e (run-MaySleep ms no_sets no_sets-Sleeps) in
    elim (Bool-cases (p.count == 0)) [
      | inl t ↦ (wait_round i p, rw a refl, rw t refl, rw t (none_asleep p h (ground arith)))
      | inr n ↦ (wait_round i p, rw a refl, rw n refl, rw n refl)
    ]
