-- ===== src/Observable/Scroll/Tests.antt =====
-- observable/controllers/scroll/scroll.go: tests, and the theorems at concrete inputs.
use zugoui.Prelude.{
  ℕ, ◌+◌, ◌%◌, ◌^◌, List, [], ◌∷◌, true, length, if◌then◌else◌, ◌≡◌, refl, arith, inl, inr,
}
use zugoui.Prelude.Int.{ℤ, pos, negsuc, add, sub, ◌≤ℤ◌, IsHalf, pos_part}
use zugoui.Prelude.Decimal.{itoa, atoi}
use zugoui.Observable.Observe.{Observe, set_value, notify}
use zugoui.Observable.Scroll.{
  Data, Scroll, can_down, down, get_key, data_set_value, data_remove_value_at,
}
use zugoui.Observable.Scroll.Moves.{Fits}
use zugoui.Observable.Scroll.Bounds.{OnData, moved_down, removed, Reach, here, next, Reach-OnData}
use zugoui.Observable.Scroll.Contents.{get_key-data_set_value}

-- Data that is a length: element `i` reads as `i`, and a write at a key reads as that key's number.
abbrev counted : Data
counted = record {
  State = List ℕ;
  Datum = ℤ;
  len = λ d. pos (length d % 2 ^ 60);
  has_len = λ d. true;
  mutable = true;
  value = λ d k. (atoi k).0;
  value_at = λ d i. i;
  set_value = λ d k v. pos_part (atoi k).0 ∷ d;
  insert_value_at = λ d i v. 0 ∷ d;
  zero_element = pos 0;
  of_bool = λ b. if b then pos 1 else pos 0;
  of_int = λ i. i;
  nil = negsuc 0;
  whole = λ d. negsuc 1;
}

abbrev five : List ℕ
five = 9 ∷ 9 ∷ 9 ∷ 9 ∷ 9 ∷ []

abbrev six : List ℕ
six = 9 ∷ five

abbrev watched : Observe ℕ
watched = record { observers = ([], 7 ∷ []) ∷ []; updating = pos 0 }

abbrev window : Scroll ℕ
window = record { observe = watched; offset = pos 1; capacity = pos 2 }

five-Fits : Fits counted five window
five-Fits = record {
  starts = omega arith;
  holds = omega arith;
  offset_half = omega arith;
  capacity_half = omega arith;
  len_half = omega arith;
}

below_end : can_down counted five window ≡ true
unfolding can_down sub
below_end = refl

counted_sized : (d : List ℕ) → (pos 0 ≤ℤ counted.len d) × IsHalf (counted.len d)
counted_sized d = omega arith

abbrev lower : Scroll ℕ
lower = (down counted six window).0

abbrev shorter : Scroll ℕ
shorter = (data_remove_value_at counted five lower).0

down_then_removed : Reach counted six window five shorter
unfolding add
down_then_removed = next (next here (moved_down refl refl)) (removed shrunk refl)
  where
    shrunk : counted.len six ≡ add (counted.len five) (pos 1)
    shrunk = refl

Reach-OnData_example : OnData counted five shorter
Reach-OnData_example = Reach-OnData counted counted_sized down_then_removed start
  where
    start : OnData counted six window
    start = record {
      starts = omega arith;
      on_data = inr (omega arith);
      holds = omega arith;
      capacity_half = omega arith;
    }

get_key-data_set_value_example :
    (get_key counted five window (itoa (pos 1)) ≡ counted.value five (itoa (pos (1 + 1))))
    × (data_set_value counted window (itoa (pos (1 + 1))) (pos 4)
        ≡ notify watched (set_value (itoa (pos 1)) (pos 4)))
    × (data_set_value counted window (itoa (pos 0)) (pos 4) ≡ [])
get_key-data_set_value_example =
    get_key-data_set_value counted window 1 2 refl refl (omega arith) (omega arith) five 1 0 (pos 4)
      (omega arith) (omega arith) (inl (omega arith))
