-- ===== src/Observable/Scroll/Bounds.antt =====
-- observable/controllers/scroll/scroll.go: the offset of a window stays on its data.
use zugoui.Prelude.{◌≡◌, ◌⊎◌, arith}
use zugoui.Prelude.Int.{pos, add, ◌≤ℤ◌, ◌<ℤ◌, IsHalf, add_parts, sub_parts}
use zugoui.Observable.Scroll.{
  Data, Scroll, can_up, can_down, up, down, page_up, page_down, data_remove_value_at,
}

module _ (data' : Data) {O : Type 0} where
  open data' use {State, len}

  -- What happens to a window and its data: the page moves the window, or the data loses or gains an
  -- element and notifies the window of it (an insertion or a value set leaves the offset alone).
  pub data Step (d : State) (s : Scroll O) (d' : State) (s' : Scroll O) : Type 0 where
    moved_up : d' ≡ d → s' ≡ (up data' d s).0 → Step d s d' s'
    moved_down : d' ≡ d → s' ≡ (down data' d s).0 → Step d s d' s'
    paged_up : d' ≡ d → s' ≡ (page_up data' d s).0 → Step d s d' s'
    paged_down : d' ≡ d → s' ≡ (page_down data' d s).0 → Step d s d' s'
    removed :
        len d ≡ add (len d') (pos 1) → s' ≡ (data_remove_value_at data' d' s).0 → Step d s d' s'
    kept : len d ≤ℤ len d' → s' ≡ s → Step d s d' s'

  pub data Reach (d : State) (s : Scroll O) : State → Scroll O → Type 0 where
    here : Reach d s d s
    next : {d₁ d₂ : State} {s₁ s₂ : Scroll O} → Reach d s d₁ s₁ → Step d₁ s₁ d₂ s₂ → Reach d s d₂ s₂

  -- The offset is 0 or the index of an element.
  pub record OnData (d : State) (s : Scroll O) : Type 0 where
    pub starts : pos 0 ≤ℤ s.offset
    pub on_data : (s.offset ≤ℤ pos 0) ⊎ (s.offset <ℤ len d)
    pub holds : pos 1 ≤ℤ s.capacity
    pub capacity_half : IsHalf s.capacity

module _ (data' : Data) {O : Type 0}
    (sized : (d : data'.State) → (pos 0 ≤ℤ data'.len d) × IsHalf (data'.len d)) where
  open data' use {State, len}

  up-OnData : (d : State) (s : Scroll O) → OnData data' d s → OnData data' d (up data' d s).0
  unfolding up can_up
  up-OnData d s v = ground (arith, sized d, sub_parts s.offset (pos 1))

  down-OnData : (d : State) (s : Scroll O) → OnData data' d s → OnData data' d (down data' d s).0
  unfolding down can_down
  down-OnData d s v =
      ground (arith, sized d, sub_parts (len d) s.capacity, add_parts s.offset (pos 1))

  page_up-OnData :
      (d : State) (s : Scroll O) → OnData data' d s → OnData data' d (page_up data' d s).0
  unfolding page_up can_up
  page_up-OnData d s v = ground (arith, sized d, sub_parts s.offset s.capacity)

  page_down-OnData :
      (d : State) (s : Scroll O) → OnData data' d s → OnData data' d (page_down data' d s).0
  unfolding page_down can_down
  page_down-OnData d s v = ground (
    arith,
    sized d,
    sub_parts (len d) s.capacity,
    sub_parts (len d) (pos 1),
    add_parts s.offset s.capacity,
  )

  remove-OnData :
      (d d' : State) (s : Scroll O)
      → len d ≡ add (len d') (pos 1)
      → OnData data' d s
      → OnData data' d' (data_remove_value_at data' d' s).0
  unfolding data_remove_value_at
  remove-OnData d d' s e v =
      ground (arith, sized d, sized d', sub_parts (len d') s.capacity, add_parts (len d') (pos 1))

  Step-OnData :
      {d d' : State} {s s' : Scroll O}
      → Step data' d s d' s'
      → OnData data' d s
      → OnData data' d' s'
  Step-OnData {d} {d'} {s} (moved_up e f) v = rw (e, f) (up-OnData d s v)
  Step-OnData {d} {d'} {s} (moved_down e f) v = rw (e, f) (down-OnData d s v)
  Step-OnData {d} {d'} {s} (paged_up e f) v = rw (e, f) (page_up-OnData d s v)
  Step-OnData {d} {d'} {s} (paged_down e f) v = rw (e, f) (page_down-OnData d s v)
  Step-OnData {d} {d'} {s} (removed e f) v = rw f (remove-OnData d d' s e v)
  Step-OnData {d} {d'} {s} (kept h f) v = rw f (record {
    starts = v.starts;
    on_data = ground arith;
    holds = v.holds;
    capacity_half = v.capacity_half;
  })

  -- From a window of positive capacity whose offset is 0 or on its data, every sequence of moves of
  -- the page and of insertions and removals in the data leads to such a window.
  pub Reach-OnData :
      {d : State} {s : Scroll O} {d' : State} {s' : Scroll O}
      → Reach data' d s d' s'
      → OnData data' d s
      → OnData data' d' s'
  Reach-OnData here v = v
  Reach-OnData (next r st) v = Step-OnData st (Reach-OnData r v)
