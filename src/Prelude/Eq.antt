-- ===== src/Prelude/Eq.antt =====
-- Go's `==` on a comparable type, such as an interface that holds pointers.
use mathlib.Core.Path.{◌≡◌}
use mathlib.Core.Logic.{◌↔◌}
use mathlib.Core.Bool.{Bool, true}
use zugoui.Prelude.Tests.{◌==◌, ==_iff}
use zugoui.Prelude.Texts.{Text, text_eq, text_eq_iff}
use Prim.Native.Nat.{ℕ}

pub record Eq {ℓ} (A : Type ℓ) : Type ℓ where
  pub beq : A → A → Bool
  pub beq_iff : (a b : A) → (beq a b ≡ true) ↔ (a ≡ b)

instance abbrev pub ℕ-eq : Eq ℕ
ℕ-eq = record { beq = ◌==◌; beq_iff = ==_iff }

instance abbrev pub Text-eq : Eq Text
Text-eq = record { beq = text_eq; beq_iff = text_eq_iff }
