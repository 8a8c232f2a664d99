-- ===== src/Observable/Observe.antt =====
-- observable/observer.go: the registry of observers that every source embeds, and its
-- notifications. Each method holds the lock for its whole body and a notification clones the list
-- before it calls the observers, so a method is one step here and a notification is the list of the
-- calls that it makes, in order.
pub mod Registrations
pub mod Updates
mod Tests
use zugoui.Prelude.{
  Text, codes, Assoc, lookup, insert, List, [], ◌∷◌, ◌++◌, map, Bool, not, Option, none, some,
  if◌then◌else◌, select, ℕ,
}
use zugoui.Prelude.Int.{ℤ, pos, add, sub, ltb_ℤ}
use zugoui.Prelude.Eq.{Eq}

-- The methods of the interface Observer, as the calls that an observer receives.
pub data Event {ℓ} (V : Type ℓ) : Type ℓ where
  set_value : Text → V → Event V
  insert_value_at : ℤ → V → Event V
  remove_value_at : ℤ → Event V
  set_value_at : ℤ → V → Event V
  set_value_for : Text → V → Event V
  remove_value_for : Text → Event V

pub record Observe {ℓ} (O : Type ℓ) : Type ℓ where
  pub observers : Assoc (List O)
  pub updating : ℤ

module _ {ℓ} {O : Type ℓ} where
  -- o.observers[key], which is nil for a missing key
  unfoldable pub at_key : Text → Assoc (List O) → List O
  at_key k m = elim (lookup k m) [ none ↦ [] | some l ↦ l ]

  unfoldable pub new : Observe O
  new = record { observers = []; updating = pos 0 }

  -- Updating(), and the function that it returns
  unfoldable pub start_update : Observe O → Observe O
  start_update o = record o { updating = add o.updating (pos 1) }

  unfoldable pub done : Observe O → Observe O
  done o = record o { updating = sub o.updating (pos 1) }

  unfoldable pub add_observer : Text → O → Observe O → Observe O
  add_observer key ob o = record o {
    observers = insert key (at_key key o.observers ++ ob ∷ []) o.observers;
  }

  unfoldable pub remove_observer : ⦃e : Eq O⦄ → Text → O → Observe O → Observe O
  remove_observer ⦃e⦄ key ob o = record o {
    observers = insert key (select (λ ko. not (e.beq ko ob)) (at_key key o.observers)) o.observers;
  }

  unfoldable pub release : Observe O → Observe O
  release o = record o { observers = [] }

  -- the observers of the key, then those of all keys
  unfoldable pub observers_for : Observe O → Text → List O
  observers_for o key =
      if ltb_ℤ (pos 0) o.updating then [] else at_key key o.observers ++ at_key [] o.observers

module _ {ℓ} {O V : Type ℓ} where
  abbrev each : List O → Event V → List (O × Event V)
  each obs ev = map (λ ob. (ob, ev)) obs

  -- The notification of each method of Observe.
  unfoldable pub notify : Observe O → Event V → List (O × Event V)
  unfolding observers_for
  notify o (set_value key v) = each (observers_for o key) (set_value key v)
  notify o (insert_value_at i v) = each (observers_for o (codes "value")) (insert_value_at i v)
  notify o (remove_value_at i) = each (observers_for o (codes "value")) (remove_value_at i)
  notify o (set_value_at i v) = each (observers_for o (codes "value")) (set_value_at i v)
  notify o (set_value_for key v) = each (observers_for o key) (set_value_for key v)
  notify o (remove_value_for key) = each (observers_for o key) (remove_value_for key)
