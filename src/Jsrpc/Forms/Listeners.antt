-- ===== src/Jsrpc/Forms/Listeners.antt =====
-- jsrpc/goui.go: how often an event reaches a listener.
use zugoui.Prelude.{
  ℕ, ◌+◌, ◌-◌, Text, text_eq, text_eq_sound, List, [], ◌∷◌, ◌++◌, Assoc, lookup, insert,
  lookup-insert, ◌&&◌, if◌then◌else◌, ◌≡◌, refl, ap, ◌∙◌, arith, Bool-cases, inl, inr,
}
use zugoui.Prelude.Eq.{Eq}
use zugoui.Jsrpc.Forms.{
  listeners_of, or_no_listeners, without_first, add_event_listener, remove_event_listener,
  dispatch_event,
}

pub data Op (C : Type 0) : Type 0 where
  adds : Text → C → Op C
  removes : Text → C → Op C

module _ {C : Type 0} ⦃e : Eq C⦄ where
  unfoldable pub count : C → List C → ℕ
  count c [] = 0
  count c (d ∷ cs) = (if e.beq d c then 1 else 0) + count c cs

  unfoldable pub run : List (Op C) → Assoc (List C) → Assoc (List C)
  unfolding add_event_listener remove_event_listener
  run [] m = m
  run (adds typ c ∷ ops) m = run ops (add_event_listener typ c m)
  run (removes typ c ∷ ops) m = run ops (remove_event_listener typ c m)

  -- how often a listener is in place: each removal takes one addition back, if there is one
  unfoldable pub balance : Text → C → List (Op C) → ℕ → ℕ
  balance typ c [] n = n
  balance typ c (adds t d ∷ ops) n =
      balance typ c ops (if text_eq t typ && e.beq d c then n + 1 else n)
  balance typ c (removes t d ∷ ops) n =
      balance typ c ops (if text_eq t typ && e.beq d c then n - 1 else n)

  count-append :
      (c d : C) (cs : List C)
      → count c (cs ++ d ∷ []) ≡ (if e.beq d c then count c cs + 1 else count c cs)
  unfolding count
  count-append c d [] = ground arith
  count-append c d (b ∷ cs) = ground (arith, count-append c d cs)

  count-without_first :
      (c d : C) (cs : List C)
      → count c (without_first d cs) ≡ (if e.beq d c then count c cs - 1 else count c cs)
  unfolding count without_first
  count-without_first c d [] = ground arith
  count-without_first c d (b ∷ cs) =
      ground (arith, count-without_first c d cs, e.beq_iff b d, e.beq_iff d c, e.beq_iff b c)

  listeners_of-insert :
      (t typ : Text) (cs : List C) (m : Assoc (List C))
      → listeners_of typ (insert t cs m) ≡ (if text_eq t typ then cs else listeners_of typ m)
  unfolding listeners_of or_no_listeners
  listeners_of-insert t typ cs m = ground (arith, lookup-insert t typ cs m)

  count-add :
      (t typ : Text) (d c : C) (m : Assoc (List C))
      → count c (listeners_of typ (add_event_listener t d m)) ≡ (
          if text_eq t typ && e.beq d c
          then count c (listeners_of typ m) + 1
          else count c (listeners_of typ m))
  unfolding add_event_listener
  count-add t typ d c m = elim (Bool-cases (text_eq t typ)) [
    | inl h ↦
        let same = text_eq_sound t typ h in
        rw (listeners_of-insert t typ (listeners_of t m ++ d ∷ []) m, h, same)
          (count-append c d (listeners_of typ m))
    | inr n ↦ rw (listeners_of-insert t typ (listeners_of t m ++ d ∷ []) m, n) refl
  ]

  count-remove :
      (t typ : Text) (d c : C) (m : Assoc (List C))
      → count c (listeners_of typ (remove_event_listener t d m)) ≡ (
          if text_eq t typ && e.beq d c
          then count c (listeners_of typ m) - 1
          else count c (listeners_of typ m))
  unfolding remove_event_listener
  count-remove t typ d c m = elim (Bool-cases (text_eq t typ)) [
    | inl h ↦
        let same = text_eq_sound t typ h in
        rw (listeners_of-insert t typ (without_first d (listeners_of t m)) m, h, same)
          (count-without_first c d (listeners_of typ m))
    | inr n ↦ rw (listeners_of-insert t typ (without_first d (listeners_of t m)) m, n) refl
  ]

  run-balance :
      (ops : List (Op C)) (typ : Text) (c : C) (m : Assoc (List C))
      → count c (listeners_of typ (run ops m)) ≡ balance typ c ops (count c (listeners_of typ m))
  unfolding run balance
  run-balance [] typ c m = refl
  run-balance (adds t d ∷ ops) typ c m =
      run-balance ops typ c (add_event_listener t d m)
      ∙ ap (balance typ c ops) (count-add t typ d c m)
  run-balance (removes t d ∷ ops) typ c m =
      run-balance ops typ c (remove_event_listener t d m)
      ∙ ap (balance typ c ops) (count-remove t typ d c m)

  -- After any additions and removals on a new service, an event reaches a listener as often as it
  -- was added for the type of the event, less the removals that found it.
  pub dispatch_event-run :
      (ops : List (Op C)) (typ : Text) (c : C)
      → count c (dispatch_event typ (run ops [])) ≡ balance typ c ops 0
  unfolding dispatch_event listeners_of or_no_listeners count lookup
  dispatch_event-run ops typ c = run-balance ops typ c []
