-- ===== src/Prelude/Int.antt =====
-- Go's `int`: signed integers over the native numbers, and their wrap-around at 64 bits (`int` has
-- 64 bits on amd64 and on wasm). Sums and orders go through the two parts of an integer, which are
-- numbers that `omega` reads.
use Prim.Native.Nat.{ℕ, suc, ◌+◌, ◌-◌, ◌%◌, ◌^◌, ◌≤◌, ◌<◌}
use mathlib.Core.Path.{◌≡◌}
use mathlib.Core.Bool.{Bool}
use native.Mathlib.Omega.{arith}
use zugoui.Prelude.Tests.{ltb, leb, if◌then◌else◌}

-- `negsuc n` is -(n + 1).
pub data ℤ : Type 0 where
  pos : ℕ → ℤ
  negsuc : ℕ → ℤ

abbrev pub pos_part : ℤ → ℕ
pos_part (pos n) = n
pos_part (negsuc n) = 0

abbrev pub neg_part : ℤ → ℕ
neg_part (pos n) = 0
neg_part (negsuc n) = suc n

-- a - b, as an integer.
abbrev pub sub_ℕ : ℕ → ℕ → ℤ
sub_ℕ a b = if leb b a then pos (a - b) else negsuc (b - a - 1)

infixl 65 ◌+ℤ◌ ◌-ℤ◌
infix 50 ◌≤ℤ◌ ◌<ℤ◌
unfoldable pub ◌+ℤ◌ : ℤ → ℤ → ℤ
a +ℤ b = sub_ℕ (pos_part a + pos_part b) (neg_part a + neg_part b)

unfoldable pub ◌-ℤ◌ : ℤ → ℤ → ℤ
a -ℤ b = sub_ℕ (pos_part a + neg_part b) (neg_part a + pos_part b)

abbrev pub ◌≤ℤ◌ : ℤ → ℤ → Type 0
a ≤ℤ b = pos_part a + neg_part b ≤ pos_part b + neg_part a

abbrev pub ◌<ℤ◌ : ℤ → ℤ → Type 0
a <ℤ b = pos_part a + neg_part b < pos_part b + neg_part a

abbrev pub ltb_ℤ : ℤ → ℤ → Bool
ltb_ℤ a b = ltb (pos_part a + neg_part b) (pos_part b + neg_part a)

abbrev pub leb_ℤ : ℤ → ℤ → Bool
leb_ℤ a b = leb (pos_part a + neg_part b) (pos_part b + neg_part a)

-- Go's built-in functions `min` and `max`.
abbrev pub min_ℤ : ℤ → ℤ → ℤ
min_ℤ a b = if ltb_ℤ b a then b else a

abbrev pub max_ℤ : ℤ → ℤ → ℤ
max_ℤ a b = if ltb_ℤ a b then b else a

-- One lemma for each operation lets `omega` work with the operations shut, at any depth.
pub +ℤ_parts :
    (a b : ℤ)
    → pos_part (a +ℤ b) + neg_part a + neg_part b ≡ neg_part (a +ℤ b) + pos_part a + pos_part b
unfolding ◌+ℤ◌
+ℤ_parts a b = ground arith

pub -ℤ_parts :
    (a b : ℤ)
    → pos_part (a -ℤ b) + neg_part a + pos_part b ≡ neg_part (a -ℤ b) + pos_part a + neg_part b
unfolding ◌-ℤ◌
-ℤ_parts a b = ground arith

pub eq_of_parts : (a b : ℤ) → pos_part a + neg_part b ≡ pos_part b + neg_part a → a ≡ b
eq_of_parts a b h = ground arith

pub ruleset int_laws = (arith, +ℤ_parts, -ℤ_parts, eq_of_parts)

-- The two's complement of 64 bits, and the integer that it stands for.
bits : ℤ → ℕ
bits (pos n) = n % 2 ^ 64
bits (negsuc n) = 2 ^ 64 - 1 - n % 2 ^ 64

signed : ℕ → ℤ
signed u = if ltb u (2 ^ 63) then pos u else negsuc (2 ^ 64 - 1 - u)

-- What an `int` holds after an operation whose exact result is given.
unfoldable pub wrap : ℤ → ℤ
unfolding bits signed
wrap z = signed (bits z)

abbrev pub IsInt : ℤ → Type 0
IsInt z = (pos_part z < 2 ^ 63) × (neg_part z ≤ 2 ^ 63)

pub wrap_exact : (z : ℤ) → IsInt z → wrap z ≡ z
unfolding wrap
wrap_exact (pos n) h = ground arith
wrap_exact (negsuc n) h = ground arith

-- `a + b` and `a - b` on `int`.
unfoldable pub add : ℤ → ℤ → ℤ
unfolding ◌+ℤ◌ wrap
add a b = wrap (a +ℤ b)

unfoldable pub sub : ℤ → ℤ → ℤ
unfolding ◌-ℤ◌ wrap
sub a b = wrap (a -ℤ b)

-- Within these bounds a sum or a difference does not wrap.
abbrev pub IsHalf : ℤ → Type 0
IsHalf z = (pos_part z < 2 ^ 62) × (neg_part z < 2 ^ 62)

pub add_exact : (a b : ℤ) → IsHalf a → IsHalf b → add a b ≡ a +ℤ b
add_exact a b ha hb = unfold add in wrap_exact (a +ℤ b) (unfold ◌+ℤ◌ in ground arith)

pub sub_exact : (a b : ℤ) → IsHalf a → IsHalf b → sub a b ≡ a -ℤ b
sub_exact a b ha hb = unfold sub in wrap_exact (a -ℤ b) (unfold ◌-ℤ◌ in ground arith)

-- The parts of a sum and of a difference that do not wrap, for `omega`.
pub add_parts :
    (a b : ℤ)
    → IsHalf a
    → IsHalf b
    → pos_part (add a b) + neg_part a + neg_part b ≡ neg_part (add a b) + pos_part a + pos_part b
add_parts a b ha hb = rw (add_exact a b ha hb) (+ℤ_parts a b)

pub sub_parts :
    (a b : ℤ)
    → IsHalf a
    → IsHalf b
    → pos_part (sub a b) + neg_part a + pos_part b ≡ neg_part (sub a b) + pos_part a + neg_part b
sub_parts a b ha hb = rw (sub_exact a b ha hb) (-ℤ_parts a b)
