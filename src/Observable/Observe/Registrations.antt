-- ===== src/Observable/Observe/Registrations.antt =====
-- observable/observer.go against its contract: a list of registrations in the order they were made.
use zugoui.Prelude.{
  Text, Assoc, insert, text_eq, text_eq_iff, lookup-insert, lookup-empty, List, [], ◌∷◌, ◌++◌,
  append-nil, not, ◌&&◌, if◌then◌else◌, select, ◌≡◌, refl, arith,
}
use zugoui.Prelude.Int.{ℤ, pos, add, sub, ltb_ℤ}
use zugoui.Prelude.Eq.{Eq}
use zugoui.Observable.Observe.{
  Observe, new, start_update, done, add_observer, remove_observer, release, observers_for, at_key,
}

-- The calls that change a registry.
pub data Op {ℓ} (O : Type ℓ) : Type ℓ where
  add_to : Text → O → Op O
  remove_from : Text → O → Op O
  release_all : Op O
  open_update : Op O
  close_update : Op O

module _ {ℓ} {O : Type ℓ} ⦃e : Eq O⦄ where
  unfoldable pub apply : Op O → Observe O → Observe O
  apply (add_to k ob) o = add_observer k ob o
  apply (remove_from k ob) o = remove_observer k ob o
  apply release_all o = release o
  apply open_update o = start_update o
  apply close_update o = done o

  unfoldable pub run : List (Op O) → Observe O → Observe O
  unfolding apply
  run [] o = o
  run (op ∷ ops) o = run ops (apply op o)

-- The contract: the live registrations, oldest first, and the number of open updates.
pub record Ledger {ℓ} (O : Type ℓ) : Type ℓ where
  pub live : List (Text × O)
  pub depth : ℤ

module _ {ℓ} {O : Type ℓ} where
  unfoldable pub nobody : Ledger O
  nobody = record { live = []; depth = pos 0 }

  -- the observers registered under exactly this key, oldest first
  unfoldable pub registered : Text → List (Text × O) → List O
  registered k [] = []
  registered k ((j, ob) ∷ rs) = if text_eq j k then ob ∷ registered k rs else registered k rs

  unfoldable pub audience : Ledger O → Text → List O
  unfolding registered
  audience l k = if ltb_ℤ (pos 0) l.depth then [] else registered k l.live ++ registered [] l.live

  registered-append :
      (k : Text) (rs ss : List (Text × O))
      → registered k (rs ++ ss) ≡ registered k rs ++ registered k ss
  unfolding registered
  registered-append k [] ss = refl
  registered-append k ((j, ob) ∷ rs) ss = ground (arith, registered-append k rs ss)

module _ {ℓ} {O : Type ℓ} ⦃e : Eq O⦄ where
  unfoldable pub record_op : Op O → Ledger O → Ledger O
  record_op (add_to k ob) l = record l { live = l.live ++ (k, ob) ∷ [] }
  record_op (remove_from k ob) l = record l {
    live = select (λ r. not (text_eq r.0 k && e.beq r.1 ob)) l.live;
  }
  record_op release_all l = record l { live = [] }
  record_op open_update l = record l { depth = add l.depth (pos 1) }
  record_op close_update l = record l { depth = sub l.depth (pos 1) }

  unfoldable pub record_all : List (Op O) → Ledger O → Ledger O
  unfolding record_op
  record_all [] l = l
  record_all (op ∷ ops) l = record_all ops (record_op op l)

  registered-select :
      (k j : Text) (ob : O) (rs : List (Text × O))
      → registered j (select (λ r. not (text_eq r.0 k && e.beq r.1 ob)) rs) ≡ (
          if text_eq k j
          then select (λ ko. not (e.beq ko ob)) (registered j rs)
          else registered j rs)
  unfolding registered
  registered-select k j ob [] = ground arith
  registered-select k j ob ((i, x) ∷ rs) =
      ground (arith, registered-select k j ob rs, text_eq_iff i k, text_eq_iff i j, text_eq_iff k j)

module _ {ℓ} {O : Type ℓ} where
  pub at_key-insert :
      (k j : Text) (obs : List O) (m : Assoc (List O))
      → at_key j (insert k obs m) ≡ (if text_eq k j then obs else at_key j m)
  unfolding at_key
  at_key-insert k j obs m = rw (lookup-insert k j obs m, at_key) (ground arith)

  at_key-empty : (k : Text) → at_key {O = O} k [] ≡ []
  unfolding at_key
  at_key-empty k = rw (lookup-empty k, at_key)

-- What relates a registry to its ledger.
record Represents {ℓ} {O : Type ℓ} (o : Observe O) (l : Ledger O) : Type ℓ where
  same_at : (k : Text) → at_key k o.observers ≡ registered k l.live
  same_depth : o.updating ≡ l.depth

module _ {ℓ} {O : Type ℓ} ⦃e : Eq O⦄ where
  apply-Represents :
      (op : Op O) (o : Observe O) (l : Ledger O)
      → Represents o l
      → Represents (apply op o) (record_op op l)
  unfolding apply record_op add_observer remove_observer release start_update done registered
  apply-Represents (add_to k ob) o l r = record {
    same_at = λ j.
        rw (at_key-insert k j, registered-append j l.live)
          (ground
            (arith, r.same_at k, r.same_at j, text_eq_iff k j, append-nil (registered j l.live)));
    same_depth = r.same_depth;
  }
  apply-Represents (remove_from k ob) o l r = record {
    same_at = λ j.
        rw (at_key-insert k j, registered-select k j ob l.live)
          (ground (arith, r.same_at k, r.same_at j, text_eq_iff k j));
    same_depth = r.same_depth;
  }
  apply-Represents release_all o l r = record {
    same_at = λ j. at_key-empty j;
    same_depth = r.same_depth;
  }
  apply-Represents open_update o l r = record {
    same_at = r.same_at;
    same_depth = cc (r.same_depth);
  }
  apply-Represents close_update o l r = record {
    same_at = r.same_at;
    same_depth = cc (r.same_depth);
  }

  run-Represents :
      (ops : List (Op O)) (o : Observe O) (l : Ledger O)
      → Represents o l
      → Represents (run ops o) (record_all ops l)
  unfolding run record_all
  run-Represents [] o l r = r
  run-Represents (op ∷ ops) o l r =
      run-Represents ops (apply op o) (record_op op l) (apply-Represents op o l r)

  observers_for-Represents :
      (o : Observe O) (l : Ledger O) (k : Text) → Represents o l → observers_for o k ≡ audience l k
  unfolding observers_for audience
  observers_for-Represents o l k r = rw (r.same_depth, r.same_at k, r.same_at [])

  -- After any calls on a new registry, a notification for a key reaches exactly the observers that
  -- the ledger of those calls holds: the live registrations of the key, oldest first, then those of
  -- the empty key, and nobody while an update is open.
  pub observers_for-run :
      (ops : List (Op O)) (k : Text)
      → observers_for (run ops new) k ≡ audience (record_all ops nobody) k
  observers_for-run ops k = observers_for-Represents (run ops new) (record_all ops nobody) k (
      run-Represents ops new nobody (
        unfold new nobody registered in
        record { same_at = λ j. at_key-empty j; same_depth = refl }))
