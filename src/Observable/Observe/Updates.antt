-- ===== src/Observable/Observe/Updates.antt =====
-- observable/observer.go: Updating and the function that it returns.
use zugoui.Prelude.{[], ℕ, suc, ◌<◌, ◌^◌, ◌≡◌, ◌∙◌, arith}
use zugoui.Prelude.Int.{pos, add, sub, ◌+ℤ◌, ◌-ℤ◌, add_exact, sub_exact}
use zugoui.Observable.Observe.{
  Observe, Event, set_value, insert_value_at, remove_value_at, set_value_at, set_value_for,
  remove_value_for, start_update, done, observers_for, notify,
}

add_one : (d : ℕ) → d < 2 ^ 61 → add (pos d) (pos 1) ≡ pos (suc d)
add_one d h = add_exact (pos d) (pos 1) (omega arith) (omega arith) ∙ (unfold ◌+ℤ◌ in ground arith)

sub_one : (d : ℕ) → d < 2 ^ 61 → sub (pos (suc d)) (pos 1) ≡ pos d
sub_one d h =
    sub_exact (pos (suc d)) (pos 1) (omega arith) (omega arith) ∙ (unfold ◌-ℤ◌ in ground arith)

module _ {ℓ} {O V : Type ℓ} where
  silent : (o : Observe O) (d : ℕ) (ev : Event V) → o.updating ≡ pos (suc d) → notify o ev ≡ []
  unfolding notify observers_for
  silent o d (set_value k v) h = rw h (ground arith)
  silent o d (insert_value_at i v) h = rw h (ground arith)
  silent o d (remove_value_at i) h = rw h (ground arith)
  silent o d (set_value_at i v) h = rw h (ground arith)
  silent o d (set_value_for k v) h = rw h (ground arith)
  silent o d (remove_value_for k) h = rw h (ground arith)

  -- With `d` updates open and room for one more, opening an update silences every notification,
  -- and closing it brings back the registry that there was, so nested updates silence it until the
  -- last one is closed.
  pub start_update-done :
      (o : Observe O) (d : ℕ) (ev : Event V)
      → o.updating ≡ pos d
      → d < 2 ^ 61
      → (notify (start_update o) ev ≡ []) × (done (start_update o) ≡ o)
  unfolding start_update done
  start_update-done o d ev h small = (
    silent (start_update o) d ev (rw h (add_one d small)),
    λ i. record { observers = o.observers; updating = restored i },
  )
    where
      restored : sub (add o.updating (pos 1)) (pos 1) ≡ o.updating
      restored = rw (h, add_one d small) (sub_one d small)
