-- ===== src/Prelude/Decimal.antt =====
-- Go's strconv.Itoa and strconv.Atoi.
use Prim.Native.Nat.{ℕ, zero, suc, ◌+◌, ◌-◌, ◌*◌, ◌/◌, ◌%◌, ◌^◌, ◌≤◌, ◌<◌}
use mathlib.Core.Path.{◌≡◌, refl, sym, ap, ◌∙◌}
use mathlib.Core.Bool.{Bool, true, false, ◌||◌}
use mathlib.Core.Option.{Option, none, some}
use mathlib.Core.List.{[], ◌∷◌}
use native.Mathlib.Omega.{arith}
use zugoui.Prelude.Tests.{ltb, ◌==◌, if◌then◌else◌}
use zugoui.Prelude.Texts.{Text, text_eq}
use zugoui.Prelude.Int.{ℤ, pos, negsuc, IsInt}

abbrev max_u64 : ℕ
max_u64 = 2 ^ 64 - 1

-- the digits of `n` before `out`; `n + 1` rounds are enough
digits : ℕ → ℕ → Text → Text
digits zero n out = out
digits (suc fuel) n out =
    let rest = digits fuel (n / 10) ((b'0' + n % 10) ∷ out) in
    if ltb n 10 then (b'0' + n) ∷ out else rest

unfoldable pub itoa : ℤ → Text
unfolding digits
itoa (pos n) = digits (suc n) n []
itoa (negsuc n) = b'-' ∷ digits (suc (suc n)) (suc n) []

-- strconv.ParseUint on 64 bits, from the digits that are read; a value out of range ends the loop
-- with the largest one, and `none` is a syntax error
scan : Text → ℕ → Option ℕ
scan [] n = some n
scan (c ∷ s) n =
    let m = n * 10 + (c - b'0') in
    let rest = scan s m in
    if ltb c b'0' || ltb b'9' c then none else if ltb max_u64 m then some max_u64 else rest

unsigned : Text → Option ℕ
unsigned [] = none
unsigned (c ∷ s) = scan (c ∷ s) 0

-- the value and whether there was no error; out of range, the value is the nearest `int`
clamp : Bool → Option ℕ → ℤ × Bool
clamp neg none = (pos 0, false)
clamp false (some u) = if ltb u (2 ^ 63) then (pos u, true) else (pos (2 ^ 63 - 1), false)
clamp true (some zero) = (pos 0, true)
clamp true (some (suc u)) =
    if ltb u (2 ^ 63) then (negsuc u, true) else (negsuc (2 ^ 63 - 1), false)

unfoldable pub atoi : Text → ℤ × Bool
unfolding scan unsigned clamp
atoi [] = (pos 0, false)
atoi (c ∷ s) =
    if c == b'-'
    then clamp true (unsigned s)
    else if c == b'+'
    then clamp false (unsigned s)
    else clamp false (unsigned (c ∷ s))

-- reading the last digit of `n` after the digits before it gives `n`
scan_last : (n : ℕ) (out : Text) → n ≤ max_u64 → scan ((b'0' + n % 10) ∷ out) (n / 10) ≡ scan out n
unfolding scan
scan_last n out h = ground arith

scan_first : (n : ℕ) (out : Text) → n < 10 → scan ((b'0' + n) ∷ out) 0 ≡ scan out n
unfolding scan
scan_first n out h = ground arith

scan-digits :
    (fuel n : ℕ) (out : Text) → n < fuel → n ≤ max_u64 → scan (digits fuel n out) 0 ≡ scan out n
unfolding digits
scan-digits zero n out lt h = absurd (omega arith)
scan-digits (suc fuel) n out lt h =
    ground (
      arith,
      scan_first n out,
      scan_last n out h,
      scan-digits fuel (n / 10) ((b'0' + n % 10) ∷ out),
    )

-- the printed text begins with a digit
DigitFirst : Text → Type 0
DigitFirst [] = ⊥
DigitFirst (c ∷ s) = (b'0' ≤ c) × (c ≤ b'9')

digits-DigitFirst : (fuel n : ℕ) (out : Text) → n < fuel → DigitFirst (digits fuel n out)
unfolding digits DigitFirst
digits-DigitFirst zero n out lt = absurd (omega arith)
digits-DigitFirst (suc fuel) n out lt =
    ground (arith, digits-DigitFirst fuel (n / 10) ((b'0' + n % 10) ∷ out))

unsigned-DigitFirst : (s : Text) → DigitFirst s → unsigned s ≡ scan s 0
unfolding unsigned DigitFirst
unsigned-DigitFirst [] h = absurd h
unsigned-DigitFirst (c ∷ s) h = refl

atoi-DigitFirst : (s : Text) → DigitFirst s → atoi s ≡ clamp false (unsigned s)
unfolding atoi DigitFirst
atoi-DigitFirst [] h = absurd h
atoi-DigitFirst (c ∷ s) h = ground arith

unsigned-digits : (n : ℕ) → n ≤ max_u64 → unsigned (digits (suc n) n []) ≡ some n
unfolding scan
unsigned-digits n h = rw (
  unsigned-DigitFirst _ (digits-DigitFirst (suc n) n [] (omega arith)),
  scan-digits (suc n) n [] (omega arith) h,
)

-- Every `int` is read back from its print, without an error.
pub atoi-itoa : (z : ℤ) → IsInt z → atoi (itoa z) ≡ (z, true)
unfolding itoa
atoi-itoa (pos n) h =
    rw
      (
        atoi-DigitFirst _ (digits-DigitFirst (suc n) n [] (omega arith)),
        unsigned-digits n (omega arith),
      )
      (unfold clamp in ground arith)
atoi-itoa (negsuc n) h =
    unfold atoi in rw (unsigned-digits (suc n) (omega arith)) (unfold clamp in ground arith)

-- The print of a number that is not negative begins with a digit, so it is no word.
pub text_eq-itoa : (n c : ℕ) (s : Text) → b'9' < c → text_eq (itoa (pos n)) (c ∷ s) ≡ false
unfolding itoa
text_eq-itoa n c s h = differ (digits (suc n) n []) (digits-DigitFirst (suc n) n [] (omega arith))
  where
    differ : (t : Text) → DigitFirst t → text_eq t (c ∷ s) ≡ false
    differ [] d = unfold text_eq in refl
    differ (x ∷ t) d = unfold text_eq DigitFirst in ground arith

-- Different numbers have different prints.
pub itoa-injective : (m n : ℕ) → m < 2 ^ 63 → n < 2 ^ 63 → itoa (pos m) ≡ itoa (pos n) → m ≡ n
itoa-injective m n hm hn e =
    same (sym (atoi-itoa (pos m) (omega arith)) ∙ ap atoi e ∙ atoi-itoa (pos n) (omega arith))
  where
    same : ◌≡◌ {A = ℤ × Bool} (pos m, true) (pos n, true) → m ≡ n
    same p = cc
