-- ===== src/Observable/Scroll.antt =====
-- observable/controllers/scroll/scroll.go: a window of fixed capacity on a slice or an array.
-- Each operation takes the state of the data and of the window, and returns the window with the
-- notifications that it makes, in order. `int` wraps around at 64 bits.
pub mod Moves
pub mod Bounds
pub mod Contents
mod Tests
use zugoui.Prelude.{
  ℕ, zero, suc, Text, codes, text_eq, List, [], ◌∷◌, ◌++◌, Bool, true, false, Option, none, some,
  if◌then◌else◌, ◌||◌, ◌&&◌,
}
use zugoui.Prelude.Int.{ℤ, pos, negsuc, pos_part, add, sub, ltb_ℤ, leb_ℤ, min_ℤ, max_ℤ}
use zugoui.Prelude.Decimal.{itoa, atoi}
use zugoui.Observable.Observe.{Observe, Event, set_value, notify}

-- The data behind a window, as the interfaces Source and MutableSource show it.
pub record Data : Type 1 where
  pub State : Type 0
  pub Datum : Type 0
  -- Value("len").(int), and 0 where that is no int
  pub len : State → ℤ
  pub has_len : State → Bool
  pub mutable : Bool
  pub value : State → Text → Datum
  pub value_at : State → ℤ → Datum
  pub set_value : State → Text → Datum → State
  pub insert_value_at : State → ℤ → Datum → State
  -- reflect's zero value of the element type, or of what it points to
  pub zero_element : Datum
  -- the other values of type `any`
  pub of_bool : Bool → Datum
  pub of_int : ℤ → Datum
  pub nil : Datum
  pub whole : State → Datum

pub record Scroll (O : Type 0) : Type 0 where
  pub observe : Observe O
  pub offset : ℤ
  pub capacity : ℤ

-- The calls that observers of the window receive.
abbrev pub Notes : Type 0 → Type 0 → Type 0
Notes O V = List (O × Event V)

-- `range n` makes no round for a negative number
abbrev pub rounds : ℤ → ℕ
rounds (pos n) = n
rounds (negsuc n) = 0

-- whether an index is outside of the window
abbrev pub outside : ℤ → ℤ → Bool
outside index capacity = ltb_ℤ index (pos 0) || leb_ℤ capacity index

unfoldable pub keys_from : ℕ → ℕ → List Text
keys_from index zero = []
keys_from index (suc left) = itoa (pos index) ∷ keys_from (suc index) left

module _ (data' : Data) {O : Type 0} where
  open data' use {State, Datum, len, has_len, mutable, of_bool, of_int, nil, zero_element}

  -- NewScroll, beside the observer that it adds to the data
  unfoldable pub new_scroll : Observe O → ℤ → Scroll O
  new_scroll ob capacity = record { observe = ob; offset = pos 0; capacity = capacity }

  -- New: the capacity is the first argument of the tag; an error of Atoi is dropped
  unfoldable pub new : Observe O → List Text → Scroll O
  unfolding new_scroll
  new ob [] = new_scroll ob (pos 0)
  new ob (arg ∷ _) = new_scroll ob (atoi arg).0

  unfoldable pub can_up : Scroll O → Bool
  can_up s = ltb_ℤ (pos 0) s.offset

  unfoldable pub can_down : State → Scroll O → Bool
  can_down d s = ltb_ℤ s.offset (sub (len d) s.capacity)

  -- the rounds of the loop of updateAll that are left, from `index`
  unfoldable pub show_from : State → Scroll O → ℕ → ℕ → Notes O Datum
  show_from d s index zero = []
  show_from d s index (suc left) =
      notify s.observe (set_value (itoa (pos index)) (data'.value_at d (add (pos index) s.offset)))
      ++ show_from d s (suc index) left

  unfoldable pub show_arrows : State → Scroll O → Notes O Datum
  unfolding can_up can_down
  show_arrows d s =
      notify s.observe (set_value (codes "canUp") (of_bool (can_up s)))
      ++ notify s.observe (set_value (codes "canDown") (of_bool (can_down d s)))

  unfoldable pub update_all : State → Scroll O → Notes O Datum
  unfolding show_from show_arrows
  update_all d s = show_from d s 0 (rounds s.capacity) ++ show_arrows d s

  abbrev pub moved : State → Scroll O → ℤ → Scroll O × Notes O Datum
  moved d s offset = let s' : Scroll O = record s { offset = offset } in (s', update_all d s')

  unfoldable pub up : State → Scroll O → Scroll O × Notes O Datum
  unfolding can_up update_all
  up d s = if can_up s then moved d s (sub s.offset (pos 1)) else (s, [])

  unfoldable pub down : State → Scroll O → Scroll O × Notes O Datum
  unfolding can_down update_all
  down d s =
      if can_down d s
      then moved d s (max_ℤ (min_ℤ (sub (len d) s.capacity) (add s.offset (pos 1))) (pos 0))
      else (s, [])

  unfoldable pub page_up : State → Scroll O → Scroll O × Notes O Datum
  unfolding can_up update_all
  page_up d s = if can_up s then moved d s (max_ℤ (pos 0) (sub s.offset s.capacity)) else (s, [])

  unfoldable pub page_down : State → Scroll O → Scroll O × Notes O Datum
  unfolding can_down update_all
  page_down d s =
      if can_down d s
      then moved d s (max_ℤ (min_ℤ (sub (len d) (pos 1)) (add s.offset s.capacity)) (pos 0))
      else (s, [])

  -- scrollObserver.SetValue, after the data has changed
  unfoldable pub data_set_value : Scroll O → Text → Datum → Notes O Datum
  data_set_value s key v =
      let (n, parsed) = atoi key in
      let index = sub n s.offset in
      if parsed
      then (if outside index s.capacity then [] else notify s.observe (set_value (itoa index) v))
      else []

  -- scrollObserver.InsertValueAt
  unfoldable pub data_insert_value_at : State → Scroll O → Notes O Datum
  unfolding can_down
  data_insert_value_at d s = notify s.observe (set_value (codes "canDown") (of_bool (can_down d s)))

  -- scrollObserver.RemoveValueAt
  unfoldable pub data_remove_value_at : State → Scroll O → Scroll O × Notes O Datum
  unfolding show_arrows
  data_remove_value_at d s =
      let s' : Scroll O = record s {
        offset = max_ℤ (pos 0) (min_ℤ (sub (len d) s.capacity) s.offset);
      } in
      (s', show_arrows d s')

  -- Insert; the check of `zero` before the call holds for every value of reflect.New
  unfoldable pub insert : State → Scroll O → State
  insert d s = if mutable then data'.insert_value_at d s.offset zero_element else d

  unfoldable pub set_key : State → Scroll O → Text → Datum → State
  set_key d s key v =
      let (n, parsed) = atoi key in
      let index = sub n s.offset in
      if mutable && parsed
      then (if outside index s.capacity then d else data'.set_value d (itoa index) v)
      else d

  unfoldable pub get_index : State → Scroll O → Text → Datum
  get_index d s key =
      let (index, parsed) = atoi key in
      if parsed
      then (if outside index s.capacity then nil else data'.value d (itoa (add index s.offset)))
      else nil

  -- Value
  unfoldable pub get_key : State → Scroll O → Text → Datum
  unfolding get_index can_up can_down
  get_key d s key =
      if text_eq key (codes "len")
      then (if has_len d then of_int (min_ℤ (len d) s.capacity) else nil)
      else if text_eq key (codes "cap")
      then of_int s.capacity
      else if text_eq key (codes "canUp")
      then of_bool (can_up s)
      else if text_eq key (codes "canDown")
      then of_bool (can_down d s)
      else if text_eq key (codes "value")
      then data'.whole d
      else get_index d s key

  -- ValueAt
  unfoldable pub get_at : State → Scroll O → ℤ → Datum
  get_at d s index = if outside index s.capacity then nil else data'.value_at d (add index s.offset)

  -- Keys
  unfoldable pub keys : Scroll O → List Text
  unfolding keys_from
  keys s = keys_from 0 (rounds s.capacity)
