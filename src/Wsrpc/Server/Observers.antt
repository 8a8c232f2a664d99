-- ===== src/Wsrpc/Server/Observers.antt =====
-- wsrpc/rpc.go: who hears of a value that a page sets.
use zugoui.Prelude.{
  ℕ, Bool-cases, inl, inr, text_eq_sound, Text, text_eq, List, [], ◌∷◌, ◌++◌, map, lookup,
  lookup-insert, lookup-without, Option, none, some, if◌then◌else◌, false, ◌≡◌, refl, ◌∙◌,
  text_eq_refl,
}
use zugoui.Prelude.Int.{pos}
use zugoui.Observable.Observe
use zugoui.Observable.Observe.Registrations.{at_key-insert}
use zugoui.Observable.Observe.{
  Observe, Event, add_observer, observers_for, at_key, notify, set_value,
}
use zugoui.Wsrpc.Server.{
  Server, new_server, add_value_observer, remove_value_observers, receive_value, told_by, or_new,
}

pub data Op (O : Type 0) : Type 0 where
  adds : Text → O → Op O
  removes : Text → Op O

other_key : (b : ℕ) (k : Text) → text_eq [] (b ∷ k) ≡ false
unfolding text_eq
other_key b k = refl

module _ {O : Type 0} where
  -- the observers of an action after some operations, oldest first
  unfoldable pub watching : Text → List (Op O) → List O → List O
  watching action [] obs = obs
  watching action (adds a ob ∷ ops) obs =
      watching action ops (if text_eq a action then obs ++ ob ∷ [] else obs)
  watching action (removes a ∷ ops) obs = watching action ops (if text_eq a action then [] else obs)

  -- those of a registry, which has them all under the empty key and no update open
  abbrev Holds : Option (Observe O) → List O → Type 0
  Holds none obs = obs ≡ []
  Holds (some o) obs =
      (at_key [] o.observers ≡ obs)
      × ((b : ℕ) (k : Text) → at_key (b ∷ k) o.observers ≡ [])
      × (o.updating ≡ pos 0)

  added-Holds :
      (found : Option (Observe O)) (obs : List O) (ob : O)
      → Holds found obs
      → Holds (some (add_observer [] ob (or_new found))) (obs ++ ob ∷ [])
  unfolding add_observer or_new Observe.new at_key lookup
  added-Holds none obs ob h = (
    rw h (rw (at_key-insert [] [] (ob ∷ []) [], text_eq_refl []) refl),
    λ b k. at_key-insert [] (b ∷ k) (ob ∷ []) [] ∙ rw (other_key b k) refl,
    refl,
  )
  added-Holds (some o) obs ob (h, none_else, u) = (
    rw (at_key-insert [] [] (at_key [] o.observers ++ ob ∷ []) o.observers, text_eq_refl [], h)
        refl,
    λ b k.
        at_key-insert [] (b ∷ k) (at_key [] o.observers ++ ob ∷ []) o.observers
        ∙ rw (other_key b k) (none_else b k),
    u,
  )

  told_by-Holds :
      {V : Type 0} (found : Option (Observe O)) (obs : List O) (b : ℕ) (key : Text) (v : V)
      → Holds found obs
      → told_by found (set_value (b ∷ key) v) ≡ map (λ o. (o, set_value (b ∷ key) v)) obs
  unfolding told_by notify observers_for
  told_by-Holds none obs b key v h = rw h refl
  told_by-Holds (some o) obs b key v (h, none_else, u) = rw (u, none_else b key, h) refl

module _ {O V P : Type 0} where
  unfoldable pub run : List (Op O) → Server O V P → Server O V P
  unfolding add_value_observer remove_value_observers
  run [] s = s
  run (adds action ob ∷ ops) s = run ops (add_value_observer action ob s)
  run (removes action ∷ ops) s = run ops (remove_value_observers action s)

  -- every action has the observers that a list for it says
  abbrev AllHold : Server O V P → (Text → List O) → Type 0
  AllHold s f = (action : Text) → Holds (lookup action s.value_observers) (f action)

  add-AllHold :
      (a : Text) (ob : O) (s : Server O V P) (f : Text → List O)
      → AllHold s f
      → AllHold (add_value_observer a ob s) (λ j. if text_eq a j then f j ++ ob ∷ [] else f j)
  unfolding add_value_observer
  add-AllHold a ob s f h j = elim (Bool-cases (text_eq a j)) [
    | inl t ↦
        let same = text_eq_sound a j t in
        rw
          (
            lookup-insert a j (add_observer [] ob (or_new (lookup a s.value_observers)))
                s.value_observers,
            t,
          )
          (rw same (added-Holds (lookup j s.value_observers) (f j) ob (h j)))
    | inr n ↦
        rw
          (
            lookup-insert a j (add_observer [] ob (or_new (lookup a s.value_observers)))
                s.value_observers,
            n,
          )
          (h j)
  ]

  remove-AllHold :
      (a : Text) (s : Server O V P) (f : Text → List O)
      → AllHold s f
      → AllHold (remove_value_observers a s) (λ j. if text_eq a j then [] else f j)
  unfolding remove_value_observers
  remove-AllHold a s f h j = elim (Bool-cases (text_eq a j)) [
    | inl t ↦ rw (lookup-without a j s.value_observers, t) refl
    | inr n ↦ rw (lookup-without a j s.value_observers, n) (h j)
  ]

  run-AllHold :
      (ops : List (Op O)) (s : Server O V P) (f : Text → List O)
      → AllHold s f
      → AllHold (run ops s) (λ j. watching j ops (f j))
  unfolding run watching
  run-AllHold [] s f h j = h j
  run-AllHold (adds a ob ∷ ops) s f h j =
      run-AllHold ops (add_value_observer a ob s) _ (add-AllHold a ob s f h) j
  run-AllHold (removes a ∷ ops) s f h j =
      run-AllHold ops (remove_value_observers a s) _ (remove-AllHold a s f h) j

-- After any additions and removals on a new server, a value that a page sets under an action and a
-- key that is not empty is told to exactly the observers that were added for the action since it
-- was last removed, each once, oldest first.
pub receive_value-run :
    {O V : Type 0} (P : Type 0) (ops : List (Op O)) (action : Text) (b : ℕ) (key : Text) (v : V)
    → receive_value action (b ∷ key) v (run ops (new_server {P = P}))
      ≡ map (λ o. (o, set_value (b ∷ key) v)) (watching action ops [])
unfolding receive_value new_server lookup
receive_value-run P ops action b key v =
    told_by-Holds (lookup action (run ops new_server).value_observers) (watching action ops []) b
      key v (run-AllHold ops (new_server {P = P}) (λ j. []) (λ j. refl) action)
