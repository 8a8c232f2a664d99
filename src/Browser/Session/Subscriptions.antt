-- ===== src/Browser/Session/Subscriptions.antt =====
-- browser/session.go: the subscribers of a session, each by the id that it got.
use zugoui.Prelude.{
  ℕ, ◌+◌, ◌≤◌, List, [], ◌∷◌, ◌++◌, Bool, false, ◌||◌, ◌==◌, Bool-cases, inl, inr, append-nil,
  if◌then◌else◌, ◌≡◌, refl, ap, ◌∙◌, arith,
}
use zugoui.Browser.Session.{Subscribers, add, remove, without_id, no_subscribers}

pub data Op (C : Type 0) : Type 0 where
  adds : C → Op C
  removes : ℕ → Op C

-- whether one of the operations removes an id
unfoldable pub removed_by : {C : Type 0} → ℕ → List (Op C) → Bool
removed_by id [] = false
removed_by id (adds cb ∷ ops) = removed_by id ops
removed_by id (removes i ∷ ops) = i == id || removed_by id ops

module _ {C : Type 0} where
  unfoldable pub apply_all : List (Op C) → Subscribers C → Subscribers C
  unfolding add remove
  apply_all [] s = s
  apply_all (adds cb ∷ ops) s = apply_all ops (add cb s)
  apply_all (removes id ∷ ops) s = apply_all ops (remove id s)

  -- the functions that are held under an id
  unfoldable pub under : ℕ → List (ℕ × C) → List C
  under id [] = []
  under id ((i, cb) ∷ cbs) = let rest = under id cbs in if i == id then cb ∷ rest else rest

  -- No id is held that has not been given out.
  abbrev pub IsFresh : ℕ → List (ℕ × C) → Type 0
  IsFresh n [] = Unit
  IsFresh n ((i, cb) ∷ cbs) = (i ≤ n) × IsFresh n cbs

  under-append : (id : ℕ) (xs ys : List (ℕ × C)) → under id (xs ++ ys) ≡ under id xs ++ under id ys
  unfolding under
  under-append id [] ys = refl
  under-append id ((i, cb) ∷ xs) ys = ground (arith, under-append id xs ys)

  under-without_id :
      (id i : ℕ) (cbs : List (ℕ × C))
      → under id (without_id i cbs) ≡ (if i == id then [] else under id cbs)
  unfolding under without_id
  under-without_id id i [] = ground arith
  under-without_id id i ((j, cb) ∷ cbs) = ground (arith, under-without_id id i cbs)

  IsFresh-under : (n id : ℕ) (cbs : List (ℕ × C)) → IsFresh n cbs → n + 1 ≤ id → under id cbs ≡ []
  unfolding under
  IsFresh-under n id [] h lt = refl
  IsFresh-under n id ((i, cb) ∷ cbs) (a, h) lt = ground (arith, IsFresh-under n id cbs h lt)

  under-later :
      (id : ℕ) (s : Subscribers C) (cb : C)
      → id ≤ s.next
      → under id (s.cbs ++ (s.next + 1, cb) ∷ []) ≡ under id s.cbs
  unfolding under
  under-later id s cb h =
      ground (arith, under-append id s.cbs ((s.next + 1, cb) ∷ []), append-nil (under id s.cbs))

  apply_all-under :
      (ops : List (Op C)) (s : Subscribers C) (id : ℕ)
      → id ≤ s.next
      → under id (apply_all ops s).cbs ≡ (if removed_by id ops then [] else under id s.cbs)
  unfolding apply_all removed_by add remove
  apply_all-under [] s id h = refl
  apply_all-under (adds cb ∷ ops) s id h =
      apply_all-under ops (add cb s) id (omega arith)
      ∙ ap (λ (x : List C). if removed_by id ops then [] else x) (under-later id s cb h)
  apply_all-under (removes i ∷ ops) s id h =
      ground (arith, apply_all-under ops (remove i s) id h, under-without_id id i s.cbs)

  IsFresh-append :
      (n : ℕ) (cb : C) (cbs : List (ℕ × C))
      → IsFresh n cbs
      → IsFresh (n + 1) (cbs ++ (n + 1, cb) ∷ [])
  IsFresh-append n cb [] h = (omega arith, tt)
  IsFresh-append n cb (x ∷ cbs) (a, h) = (omega arith, IsFresh-append n cb cbs h)

  IsFresh-without_id : (n i : ℕ) (cbs : List (ℕ × C)) → IsFresh n cbs → IsFresh n (without_id i cbs)
  unfolding without_id
  IsFresh-without_id n i [] h = tt
  IsFresh-without_id n i ((j, cb) ∷ cbs) (a, h) = elim (Bool-cases (j == i)) [
    | inl e ↦ rw e (IsFresh-without_id n i cbs h)
    | inr e ↦ rw e (a, IsFresh-without_id n i cbs h)
  ]

  apply_all-IsFresh :
      (ops : List (Op C)) (s : Subscribers C)
      → IsFresh s.next s.cbs
      → IsFresh (apply_all ops s).next (apply_all ops s).cbs
  unfolding apply_all add remove
  apply_all-IsFresh [] s h = h
  apply_all-IsFresh (adds cb ∷ ops) s h =
      apply_all-IsFresh ops (add cb s) (IsFresh-append s.next cb s.cbs h)
  apply_all-IsFresh (removes i ∷ ops) s h =
      apply_all-IsFresh ops (remove i s) (IsFresh-without_id s.next i s.cbs h)

  -- After any additions and removals, a function that is added is held once under the id that it
  -- gets, until that id is removed, whatever else is added and removed.
  pub under-apply_all :
      (before later : List (Op C)) (cb : C)
      → let s = apply_all before no_subscribers in
        under (s.next + 1) (apply_all later (add cb s)).cbs
        ≡ (if removed_by (s.next + 1) later then [] else cb ∷ [])
  unfolding under add no_subscribers
  under-apply_all before later cb =
      let s = apply_all before no_subscribers in
      let fresh = apply_all-IsFresh before no_subscribers tt in
      ground (
        arith,
        apply_all-under later (add cb s) (s.next + 1) (omega arith),
        under-append (s.next + 1) s.cbs ((s.next + 1, cb) ∷ []),
        IsFresh-under s.next (s.next + 1) s.cbs fresh (omega arith),
      )
