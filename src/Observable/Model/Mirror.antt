-- ===== src/Observable/Model/Mirror.antt =====
-- observable/controllers/model.go: what an observer of all keys learns from InsertValueAt and
-- RemoveValueAt of a slice.
use zugoui.Prelude.{
  ℕ, zero, suc, ◌+◌, ◌-◌, ◌≤◌, ◌<◌, ◌^◌, Text, codes, text_eq, text_eq_iff, List, [], ◌∷◌, ◌++◌,
  Assoc, Option, none, some, length, get_elem?, ltb, leb, true, false, Bool, ◌&&◌, if◌then◌else◌,
  ◌≡◌, ◌≢◌, refl, ◌∙◌, ap, arith, inl, inr, Bool-cases, length-append, get_elem?-length-le, ◌==◌,
}
use zugoui.Prelude.Int.{ℤ, pos}
use zugoui.Prelude.Decimal.{itoa, itoa-injective, text_eq-itoa}
use zugoui.Observable.Observe.{
  set_value, insert_value_at, remove_value_at, set_value_at, set_value_for, remove_value_for,
}
use zugoui.Observable.Model.{
  Body, slice, Model, Effect, Events, value_at, elements, update_loop, update_from, push,
  drop_source, with_body, start, grow, len_event, insert_at, remove_at, inserted, removed,
}
use zugoui.Observable.Model.Insert.{
  insert_spec, inserted-insert_spec, length-insert_spec, get_elem?-insert_spec,
}
use zugoui.Observable.Model.Remove.{
  remove_spec, removed_inside, removed_end, length-remove_spec, get_elem?-remove_spec,
}

module _ {V : Type 0} where
  -- The values by key of an observer that stores each SetValue that it receives.
  unfoldable pub after : (Text → Option V) → Events V → Text → Option V
  after old [] k = old k
  after old (set_value j v ∷ evs) k = after (λ i. if text_eq j i then v else old i) evs k
  after old (insert_value_at i v ∷ evs) k = after old evs k
  after old (remove_value_at i ∷ evs) k = after old evs k
  after old (set_value_at i v ∷ evs) k = after old evs k
  after old (set_value_for j v ∷ evs) k = after old evs k
  after old (remove_value_for j ∷ evs) k = after old evs k

  after-concat :
      (old : Text → Option V) (evs : Events V) (j : Text) (v : Option V) (k : Text)
      → after old (evs ++ set_value j v ∷ []) k ≡ (if text_eq j k then v else after old evs k)
  unfolding after
  after-concat old [] j v k = refl
  after-concat old (set_value i w ∷ evs) j v k =
      after-concat (λ i'. if text_eq i i' then w else old i') evs j v k
  after-concat old (insert_value_at i w ∷ evs) j v k = after-concat old evs j v k
  after-concat old (remove_value_at i ∷ evs) j v k = after-concat old evs j v k
  after-concat old (set_value_at i w ∷ evs) j v k = after-concat old evs j v k
  after-concat old (set_value_for i w ∷ evs) j v k = after-concat old evs j v k
  after-concat old (remove_value_for i ∷ evs) j v k = after-concat old evs j v k

text_eq-itoa_ne :
    (m n : ℕ) → m < 2 ^ 62 → n < 2 ^ 62 → m ≢ n → text_eq (itoa (pos m)) (itoa (pos n)) ≡ false
text_eq-itoa_ne m n hm hn ne =
    ground (arith, text_eq_iff (itoa (pos m)) (itoa (pos n)), itoa-injective m n)

module _ {S V : Type 0} where
  update_loop-body :
      (i left : ℕ) (e : Effect S V) → (update_loop i left e).model.body ≡ e.model.body
  unfolding update_loop
  update_loop-body i zero e = refl
  update_loop-body i (suc left) e = update_loop-body (suc i) left (
      push (set_value (itoa (pos i)) (value_at e.model.body (pos i)))
        (drop_source (itoa (pos i)) e))

  -- the loop of updateFrom gives the observer the elements of its range, and nothing else
  after-update_loop :
      (old : Text → Option V) (j i left : ℕ) (e : Effect S V)
      → j < 2 ^ 62
      → i + left < 2 ^ 62
      → after old (update_loop i left e).events (itoa (pos j)) ≡ (
          if leb i j && ltb j (i + left)
          then value_at e.model.body (pos j)
          else after old e.events (itoa (pos j)))
  unfolding update_loop push drop_source
  after-update_loop old j i zero e hj h = ground arith
  after-update_loop old j i (suc left) e hj h =
      rw
        (
          after-update_loop old j (suc i) left
              (push (set_value (itoa (pos i)) (value_at e.model.body (pos i)))
                (drop_source (itoa (pos i)) e))
              hj (omega arith),
          after-concat old e.events (itoa (pos i)) (value_at e.model.body (pos i)) (itoa (pos j)),
        )
        (elim (Bool-cases (i == j)) [
          | inl t ↦ at_key (ground arith)
          | inr f ↦ other_key (ground arith)
        ])
    where
      at_key :
          i ≡ j
          → (if leb (suc i) j && ltb j (suc i + left)
              then value_at e.model.body (pos j)
              else if text_eq (itoa (pos i)) (itoa (pos j))
              then value_at e.model.body (pos i)
              else after old e.events (itoa (pos j)))
            ≡ (if leb i j && ltb j (i + suc left)
                then value_at e.model.body (pos j)
                else after old e.events (itoa (pos j)))
      at_key t = ground (
        arith,
        ap (λ (n : ℕ). value_at e.model.body (pos n)) t,
        text_eq_iff (itoa (pos i)) (itoa (pos j)),
        ap (λ (n : ℕ). itoa (pos n)) t,
      )

      other_key :
          i ≢ j
          → (if leb (suc i) j && ltb j (suc i + left)
              then value_at e.model.body (pos j)
              else if text_eq (itoa (pos i)) (itoa (pos j))
              then value_at e.model.body (pos i)
              else after old e.events (itoa (pos j)))
            ≡ (if leb i j && ltb j (i + suc left)
                then value_at e.model.body (pos j)
                else after old e.events (itoa (pos j)))
      other_key f = ground (arith, text_eq-itoa_ne i j (omega arith) hj f)

  -- updateFrom after the events `evs` on a slice that holds `ys`
  after-update_from :
      (old : Text → Option V) (j i : ℕ) (last : Bool) (ys : List V) (e : Effect S V)
      → e.model.body ≡ slice ys
      → j < 2 ^ 62
      → i ≤ length ys
      → length ys < 2 ^ 61
      → after old (update_from i last e).events (itoa (pos j)) ≡ (
          if leb i j && ltb j (if last then length ys + 1 else length ys)
          then get_elem? ys j
          else after old e.events (itoa (pos j)))
  unfolding update_from
  after-update_from old j i true ys e b hj hi hn =
      let size : length (elements e.model.body) ≡ length ys =
        ap (λ (c : Body V). length (elements c)) b ∙ (unfold elements in refl) in
      let value : value_at e.model.body (pos j) ≡ get_elem? ys j =
        ap (λ (c : Body V). value_at c (pos j)) b ∙ (unfold value_at in refl) in
      ground (
        arith,
        size,
        value,
        after-update_loop old j i (length (elements e.model.body) + 1 - i) e hj,
      )
  after-update_from old j i false ys e b hj hi hn =
      let size : length (elements e.model.body) ≡ length ys =
        ap (λ (c : Body V). length (elements c)) b ∙ (unfold elements in refl) in
      let value : value_at e.model.body (pos j) ≡ get_elem? ys j =
        ap (λ (c : Body V). value_at c (pos j)) b ∙ (unfold value_at in refl) in
      ground
        (arith, size, value, after-update_loop old j i (length (elements e.model.body) - i) e hj)

len_ne : (j : ℕ) → text_eq (codes "len") (itoa (pos j)) ≡ false
len_ne j = ground (
  arith,
  text_eq-itoa j b'l' (codes "en") (omega arith),
  text_eq_iff (itoa (pos j)) (codes "len"),
  text_eq_iff (codes "len") (itoa (pos j)),
)

module _ {S V : Type 0} where
  update_from-body :
      (i : ℕ) (last : Bool) (e : Effect S V) → (update_from i last e).model.body ≡ e.model.body
  unfolding update_from
  update_from-body i last e =
      let n = length (elements e.model.body) in
      update_loop-body i ((if last then n + 1 else n) - i) e

module _ {S V : Type 0} (of_int : ℤ → V) (z : V) where
  abbrev pub sliced : List V → Assoc S → Model S V
  sliced xs ss = record { body = slice xs; sources = ss }

  -- the effect of InsertValueAt before its call of updateFrom
  abbrev before_update : ℕ → V → List V → Assoc S → Effect S V
  before_update i v xs ss =
      let ys = inserted z i v xs in
      let gap = if leb (length xs) i then 1 + (i - length xs) else 1 in
      push (len_event of_int (length ys)) (
        push (insert_value_at (pos i) (some v))
          (with_body (slice ys) (grow of_int z gap xs (start (sliced xs ss)))))

  -- On a slice, InsertValueAt at an index on the slice or at its end makes the insertion, and an
  -- observer that stores what it is notified of, and showed the element of an index before, shows
  -- that of the new list after it.
  pub insert_at-after :
      (old : Text → Option V) (xs : List V) (ss : Assoc S) (i j : ℕ) (v : V)
      → i ≤ length xs
      → length xs < 2 ^ 60
      → j < 2 ^ 62
      → old (itoa (pos j)) ≡ get_elem? xs j
      → (e : Effect S V) × (insert_at of_int z (pos i) (some v) (sliced xs ss) ≡ some e)
        × (e.model.body ≡ slice (insert_spec z i v xs))
        × (after old e.events (itoa (pos j)) ≡ get_elem? (insert_spec z i v xs) j)
  insert_at-after old xs ss i j v hi hn hj shows = (
    update_from i false before,
    (unfold insert_at in refl),
    update_from-body i false before ∙ (unfold push with_body in ap slice spec),
    ground (
      arith,
      after-update_from old j i false (inserted z i v xs) before (unfold push with_body in refl) hj,
      size,
      spec,
      shows,
      quiet,
      get_elem?-insert_spec z i j v xs hi,
      length-insert_spec z i v xs hi,
      get_elem?-length-le (insert_spec z i v xs) j,
      get_elem?-length-le xs j,
      ap (λ (ys : List V). get_elem? ys j) spec,
    ),
  )
    where
      before : Effect S V
      before = before_update i v xs ss

      spec : inserted z i v xs ≡ insert_spec z i v xs
      spec = inserted-insert_spec z i v xs

      size : length (inserted z i v xs) ≡ suc (length xs)
      size = ap length spec ∙ length-insert_spec z i v xs hi

      quiet : after old before.events (itoa (pos j)) ≡ old (itoa (pos j))
      quiet = unfold push with_body grow start after len_event in rw (len_ne j)

  -- the effect of RemoveValueAt before its call of updateFrom
  abbrev before_shift : ℕ → List V → Assoc S → Effect S V
  before_shift i xs ss = push (len_event of_int (length xs - 1)) (
      push (remove_value_at (pos i)) (
        push (set_value (itoa (pos i)) none)
          (with_body (slice (removed i xs)) (start (sliced xs ss)))))

  remove_lem :
      (i : ℕ) (xs : List V) (ss : Assoc S)
      → ltb (length xs) i ≡ false
      → (length xs == 0) ≡ false
      → remove_at of_int z (pos i) (sliced xs ss) ≡ some (update_from i true (before_shift i xs ss))
  unfolding remove_at len_event
  remove_lem i xs ss p q = rw (p, q)

  -- On a slice, RemoveValueAt at the index of an element makes the removal, and an observer that
  -- stores what it is notified of, and showed the element of an index before, shows that of the new
  -- list after it.
  pub remove_at-after :
      (old : Text → Option V) (xs : List V) (ss : Assoc S) (i j : ℕ)
      → i < length xs
      → length xs < 2 ^ 60
      → j < 2 ^ 62
      → old (itoa (pos j)) ≡ get_elem? xs j
      → (e : Effect S V) × (remove_at of_int z (pos i) (sliced xs ss) ≡ some e)
        × (e.model.body ≡ slice (remove_spec i xs))
        × (after old e.events (itoa (pos j)) ≡ get_elem? (remove_spec i xs) j)
  remove_at-after old xs ss i j hi hn hj shows = (
    update_from i true before,
    remove_lem i xs ss (ground arith) (ground arith),
    update_from-body i true before ∙ (unfold push with_body in ap slice spec),
    ground (
      arith,
      after-update_from old j i true (removed i xs) before (unfold push with_body in refl) hj,
      size,
      spec,
      shows,
      quiet,
      text_eq-itoa_ne i j (omega arith) hj,
      get_elem?-remove_spec i j xs,
      length-remove_spec i xs hi,
      get_elem?-length-le (remove_spec i xs) j,
      get_elem?-length-le xs j,
      ap (λ (ys : List V). get_elem? ys j) spec,
    ),
  )
    where
      before : Effect S V
      before = before_shift i xs ss

      spec : removed i xs ≡ remove_spec i xs
      spec = removed_inside i xs hi

      size : suc (length (removed i xs)) ≡ length xs
      size = ap (λ (ys : List V). suc (length ys)) spec ∙ length-remove_spec i xs hi

      quiet :
          after old before.events (itoa (pos j))
          ≡ (if text_eq (itoa (pos i)) (itoa (pos j)) then none else old (itoa (pos j)))
      quiet = unfold push with_body start after len_event in rw (len_ne j)

  -- RemoveValueAt lets the index behind the last element through: it then removes the last element,
  -- and of an empty slice it panics. Only an index behind that changes nothing.
  pub remove_at_end :
      (ys : List V) (y : V) (ss : Assoc S) (i : ℕ)
      → length ys + 1 < i
      → ((e : Effect S V) × (remove_at of_int z (pos (length ys + 1)) (sliced (ys ++ y ∷ []) ss)
            ≡ some e)
          × (e.model.body ≡ slice ys))
        × (remove_at of_int z (pos 0) (sliced [] ss) ≡ none)
        × (remove_at of_int z (pos i) (sliced (ys ++ y ∷ []) ss)
            ≡ some (start (sliced (ys ++ y ∷ []) ss)))
  remove_at_end ys y ss i h = (
    (
      update_from (length ys + 1) true before,
      remove_lem (length ys + 1) (ys ++ y ∷ []) ss (ground (arith, size)) (ground (arith, size)),
      update_from-body (length ys + 1) true before
          ∙ (unfold push with_body in ap slice (removed_end ys y)),
    ),
    (unfold remove_at in refl),
    (unfold remove_at in ground (arith, size)),
  )
    where
      before : Effect S V
      before = before_shift (length ys + 1) (ys ++ y ∷ []) ss

      size : length (ys ++ y ∷ []) ≡ length ys + 1
      size = length-append ys (y ∷ [])
