-- ===== src/Jsrpc/Forms/Waiting.antt =====
-- jsrpc/goui.go: whether a page that waits for a form gets it.
use zugoui.Prelude.{
  ℕ, zero, suc, Text, text_eq, text_eq_refl, List, [], ◌∷◌, Bool, true, false, not, Option, none,
  some, select, get_elem?, set, if◌then◌else◌, ◌≡◌, ◌⊎◌, inl, inr, refl, sym, subst, arith,
  Bool-cases,
}
use zugoui.Jsrpc.Forms.{
  Status, looking, blocked, resolved, failed, System, Move, looks, wakes, stores, forgets, closes,
  is_known, look_at, wake_at, step, then_step, run, asking,
}

-- What holds of the only waiter: at the channel it has a signal to come, or its form is unknown.
abbrev Holds : Status → Text → System → Type 0
Holds looking f s = Unit
Holds blocked f s = (is_known f s.forms ≡ false) ⊎ (s.form_added ≡ true)
Holds resolved f s = Unit
Holds failed f s = (s.closed ≡ true) × (is_known f s.forms ≡ false)

record Alone (f : Text) (s : System) : Type 0 where
  status : Status
  only : s.waiters ≡ (f, status) ∷ []
  holds : Holds status f s

abbrev MayBe : Text → Option System → Type 0
MayBe f none = Unit
MayBe f (some s) = Alone f s

is_known-select :
    (f g : Text) (gs : List Text)
    → is_known f gs ≡ false
    → is_known f (select (λ h. not (text_eq h g)) gs) ≡ false
unfolding is_known
is_known-select f g [] e = refl
is_known-select f g (h ∷ gs) e = ground (arith, is_known-select f g gs)

module _ (f : Text) (s : System) where
  looks-Alone :
      (st : Status) (i : ℕ)
      → s.waiters ≡ (f, st) ∷ []
      → Holds st f s
      → MayBe f (look_at (get_elem? ((f, st) ∷ []) i) i s)
  unfolding look_at
  looks-Alone looking zero w h = elim (Bool-cases (is_known f s.forms)) [
    | inl t ↦ record { status = resolved; only = rw (w, t) refl; holds = tt }
    | inr n ↦ record { status = blocked; only = rw (w, n) refl; holds = inl n }
  ]
  looks-Alone blocked zero w h = tt
  looks-Alone resolved zero w h = tt
  looks-Alone failed zero w h = tt
  looks-Alone st (suc i) w h = tt

  woken :
      (added closed : Bool)
      → s.form_added ≡ added
      → s.closed ≡ closed
      → s.waiters ≡ (f, blocked) ∷ []
      → Holds blocked f s
      → MayBe f (
          if added
          then some (record s { form_added = false; waiters = set s.waiters 0 (f, looking) })
          else if closed
          then some (record s { waiters = set s.waiters 0 (f, failed) })
          else none)
  woken true closed a c w h = record { status = looking; only = rw w refl; holds = tt }
  woken false true a c w (inl u) = record { status = failed; only = rw w refl; holds = (c, u) }
  woken false true a c w (inr t) = cc
  woken false false a c w h = tt

  wakes-Alone :
      (st : Status) (i : ℕ)
      → s.waiters ≡ (f, st) ∷ []
      → Holds st f s
      → MayBe f (wake_at (get_elem? ((f, st) ∷ []) i) i s)
  unfolding wake_at
  wakes-Alone blocked zero w h = woken s.form_added s.closed refl refl w h
  wakes-Alone looking zero w h = tt
  wakes-Alone resolved zero w h = tt
  wakes-Alone failed zero w h = tt
  wakes-Alone st (suc i) w h = tt

  stored-Holds :
      (st : Status) (g : Text)
      → s.closed ≡ false
      → Holds st f s
      → Holds st f (record s { forms = g ∷ s.forms; form_added = true })
  stored-Holds looking g o h = tt
  stored-Holds blocked g o h = inr refl
  stored-Holds resolved g o h = tt
  stored-Holds failed g o (c, u) = cc

  forgotten-Holds :
      (st : Status) (g : Text)
      → Holds st f s
      → Holds st f (record s { forms = select (λ h. not (text_eq h g)) s.forms })
  forgotten-Holds looking g h = tt
  forgotten-Holds blocked g (inl u) = inl (is_known-select f g s.forms u)
  forgotten-Holds blocked g (inr a) = inr a
  forgotten-Holds resolved g h = tt
  forgotten-Holds failed g (c, u) = (c, is_known-select f g s.forms u)

  closed-Holds : (st : Status) → Holds st f s → Holds st f (record s { closed = true })
  closed-Holds looking h = tt
  closed-Holds blocked h = h
  closed-Holds resolved h = tt
  closed-Holds failed (c, u) = (refl, u)

-- a move that waits for the channel to be open
unless_closed :
    (f : Text) (b : Bool) (s : System)
    → (b ≡ false → Alone f s)
    → MayBe f (if b then none else some s)
unless_closed f true s h = tt
unless_closed f false s h = h refl

step-Alone : (f : Text) (m : Move) (s : System) → Alone f s → MayBe f (step m s)
unfolding step
step-Alone f (looks i) s a =
    subst (λ ws. MayBe f (look_at (get_elem? ws i) i s)) (sym a.only)
      (looks-Alone f s a.status i a.only a.holds)
step-Alone f (wakes i) s a =
    subst (λ ws. MayBe f (wake_at (get_elem? ws i) i s)) (sym a.only)
      (wakes-Alone f s a.status i a.only a.holds)
step-Alone f (stores g) s a = unless_closed f s.closed _ (λ o. record {
  status = a.status;
  only = a.only;
  holds = stored-Holds f s a.status g o a.holds;
})
step-Alone f (forgets g) s a = record {
  status = a.status;
  only = a.only;
  holds = forgotten-Holds f s a.status g a.holds;
}
step-Alone f closes s a =
    unless_closed f s.closed _
      (λ o. record { status = a.status; only = a.only; holds = closed-Holds f s a.status a.holds })

run-Alone : (f : Text) (ms : List Move) (r : Option System) → MayBe f r → MayBe f (run ms r)
unfolding run then_step
run-Alone f [] r a = a
run-Alone f (m ∷ ms) none a = run-Alone f ms none tt
run-Alone f (m ∷ ms) (some s) a = run-Alone f ms (step m s) (step-Alone f m s a)

-- the moves by which the waiter gets on from where it is
abbrev pub own_moves : Status → List Move
own_moves looking = looks 0 ∷ []
own_moves blocked = wakes 0 ∷ looks 0 ∷ []
own_moves resolved = []
own_moves failed = []

gets_on :
    (f : Text) (st : Status) (s : System)
    → s.waiters ≡ (f, st) ∷ []
    → Holds st f s
    → is_known f s.forms ≡ true
    → (s' : System) × (run (own_moves st) (some s) ≡ some s') × (s'.waiters ≡ (f, resolved) ∷ [])
unfolding run then_step step look_at wake_at
gets_on f looking s w h k = (record s { waiters = (f, resolved) ∷ [] }, rw (w, k) refl, refl)
gets_on f blocked s w (inl u) k = cc
gets_on f blocked s w (inr a) k =
    (record s { form_added = false; waiters = (f, resolved) ∷ [] }, rw (w, a) (rw k refl), refl)
gets_on f resolved s w h k = (s, refl, w)
gets_on f failed s w (c, u) k = cc

-- A page that is the only one to wait for a form gets it: after any moves that leave the form
-- known, its own next moves, two at most, lead to the bindings.
pub waiter_gets_form :
    (f : Text) (ms : List Move) (s : System)
    → run ms (some (asking ((f, looking) ∷ []))) ≡ some s
    → is_known f s.forms ≡ true
    → (st : Status) × (s' : System) × (s.waiters ≡ (f, st) ∷ [])
      × (run (own_moves st) (some s) ≡ some s')
      × (s'.waiters ≡ (f, resolved) ∷ [])
unfolding asking
waiter_gets_form f ms s r k =
    let a : Alone f s = subst (MayBe f) r (
      run-Alone f ms (some (asking ((f, looking) ∷ [])))
        (record { status = looking; only = refl; holds = tt })) in
    let (s', ran, done) = gets_on f a.status s a.only a.holds k in (a.status, s', a.only, ran, done)

abbrev both_blocked : Text → Text → System
both_blocked f g = record {
  forms = f ∷ [];
  form_added = false;
  closed = false;
  waiters = (f, blocked) ∷ (g, blocked) ∷ [];
}

both_blocked_stuck :
    (f g : Text) (i : ℕ)
    → (step (looks i) (both_blocked f g) ≡ none) × (step (wakes i) (both_blocked f g) ≡ none)
unfolding step look_at wake_at
both_blocked_stuck f g zero = (refl, refl)
both_blocked_stuck f g (suc zero) = (refl, refl)
both_blocked_stuck f g (suc (suc i)) = (refl, refl)

-- Two pages that wait for two forms share one signal. When the first form is bound, the page that
-- waits for the second may take the signal: then the first form is known, both pages are blocked,
-- and neither can make a move until another form is bound or the service is closed.
pub waiter_misses_form :
    (f g : Text)
    → text_eq f g ≡ false
    → (s : System) × (run
          (looks 0 ∷ looks 1 ∷ stores f ∷ wakes 1 ∷ looks 1 ∷ [])
          (some (asking ((f, looking) ∷ (g, looking) ∷ [])))
        ≡ some s)
      × (is_known f s.forms ≡ true)
      × (s.waiters ≡ (f, blocked) ∷ (g, blocked) ∷ [])
      × ((i : ℕ) → (step (looks i) s ≡ none) × (step (wakes i) s ≡ none))
unfolding run then_step step look_at wake_at asking is_known
waiter_misses_form f g n =
    (both_blocked f g, rw n refl, rw (text_eq_refl f) refl, refl, both_blocked_stuck f g)
