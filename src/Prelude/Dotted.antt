-- ===== src/Prelude/Dotted.antt =====
-- Go's strings.Cut, strings.Split and strings.Join at the separator ".", on which key paths rest.
use Prim.Native.Nat.{ℕ}
use mathlib.Core.Path.{◌≡◌, refl, ap, ◌∙◌}
use mathlib.Core.Logic.{◌≢◌, inl, inr}
use mathlib.Core.Bool.{Bool, true, false}
use mathlib.Core.List.{List, [], ◌∷◌, ◌++◌, append-nil}
use native.Mathlib.Omega.{arith}
use zugoui.Prelude.Tests.{Bool-cases, ◌==◌, if◌then◌else◌}
use zugoui.Prelude.Lists.{All}
use zugoui.Prelude.Texts.{Text}

abbrev pub dot : ℕ
dot = b'.'

abbrev pub LacksDot : Text → Type 0
LacksDot = All (λ c. c ≢ dot)

-- before, after, found := strings.Cut(s, ".")
unfoldable pub cut : Text → Text × Text × Bool
cut [] = ([], [], false)
cut (c ∷ s) =
    let (before, after, found) = cut s in
    if c == dot then ([], s, true) else (c ∷ before, after, found)

extend : ℕ → List Text → List Text
extend c [] = (c ∷ []) ∷ []
extend c (p ∷ ps) = (c ∷ p) ∷ ps

-- strings.Split(s, ".")
unfoldable pub split : Text → List Text
unfolding extend
split [] = [] ∷ []
split (c ∷ s) = let rest = split s in if c == dot then [] ∷ rest else extend c rest

unfoldable pub separated : List Text → Text
separated [] = []
separated (p ∷ ps) = dot ∷ p ++ separated ps

-- strings.Join(parts, ".")
unfoldable pub join : List Text → Text
unfolding separated
join [] = []
join (p ∷ ps) = p ++ separated ps

pub cut-LacksDot : (p : Text) → LacksDot p → cut p ≡ (p, [], false)
unfolding cut
cut-LacksDot [] h = refl
cut-LacksDot (c ∷ p) h = ground (arith, cut-LacksDot p)

pub cut-append : (p s : Text) → LacksDot p → cut (p ++ dot ∷ s) ≡ (p, s, true)
unfolding cut
cut-append [] s h = refl
cut-append (c ∷ p) s h = ground (arith, cut-append p s)

split-LacksDot : (p : Text) → LacksDot p → split p ≡ p ∷ []
unfolding split
split-LacksDot [] h = refl
split-LacksDot (c ∷ p) h = ground (arith, split-LacksDot p)

split-append : (p s : Text) → LacksDot p → split (p ++ dot ∷ s) ≡ p ∷ split s
unfolding split
split-append [] s h = refl
split-append (c ∷ p) s h = ground (arith, split-append p s)

-- Splitting a join gives the parts back, if there is a part and none holds a dot.
pub split-join :
    (p : Text) (ps : List Text) → LacksDot p → All LacksDot ps → split (join (p ∷ ps)) ≡ p ∷ ps
unfolding join
split-join p [] hp hps = rw (append-nil p) (split-LacksDot p hp)
split-join p (q ∷ qs) hp (hq, hqs) =
    split-append p (q ++ separated qs) hp ∙ ap (λ (r : List Text). p ∷ r) (split-join q qs hq hqs)

extend-LacksDot : (c : ℕ) (ps : List Text) → c ≢ dot → All LacksDot ps → All LacksDot (extend c ps)
unfolding extend
extend-LacksDot c [] h hs = ((h, tt), tt)
extend-LacksDot c (p ∷ ps) h (hp, hs) = ((h, hp), hs)

-- No part of a split holds a dot.
pub split-All : (s : Text) → All LacksDot (split s)
unfolding split
split-All [] = (tt, tt)
split-All (c ∷ s) = elim (Bool-cases (c == dot)) [
  | inl e ↦ rw e (tt, split-All s)
  | inr n ↦ rw n (extend-LacksDot c (split s) (ground arith) (split-All s))
]

extend-join : (c : ℕ) (ps : List Text) → join (extend c ps) ≡ c ∷ join ps
unfolding extend join
extend-join c [] = refl
extend-join c (p ∷ ps) = refl

pub split-ne-nil : (s : Text) → split s ≢ []
unfolding split extend
split-ne-nil [] h = cc
split-ne-nil (c ∷ s) h = elim (Bool-cases (c == dot)) [
  | inl e ↦ cons_ne (rw e at h)
  | inr n ↦ extend_ne (split s) (rw n at h)
]
  where
    cons_ne : {r : List Text} → [] ∷ r ≡ [] → ⊥
    cons_ne e = cc

    extend_ne : (ps : List Text) → extend c ps ≡ [] → ⊥
    extend_ne [] e = cc
    extend_ne (p ∷ ps) e = cc

join-dot : (ps : List Text) → ps ≢ [] → join ([] ∷ ps) ≡ dot ∷ join ps
unfolding join
join-dot [] h = absurd (h refl)
join-dot (p ∷ ps) h = refl

-- Joining the parts of a split gives the text back.
pub join-split : (s : Text) → join (split s) ≡ s
unfolding split
join-split [] = unfold join in refl
join-split (c ∷ s) = elim (Bool-cases (c == dot)) [
  | inl e ↦ rw (e, join-dot (split s) (split-ne-nil s), join-split s) (ground arith)
  | inr n ↦ rw (n, extend-join, join-split s)
]
