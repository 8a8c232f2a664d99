-- ===== src/Observable/Scroll/Moves.antt =====
-- observable/controllers/scroll/scroll.go: where the moves of a window lead.
use zugoui.Prelude.{◌≡◌, refl, ap, arith, true}
use zugoui.Prelude.Int.{pos, add, sub, max_ℤ, ◌≤ℤ◌, ◌<ℤ◌, IsHalf, add_parts, sub_parts, eq_of_parts}
use zugoui.Observable.Scroll.{Data, Scroll, can_up, can_down, up, down, page_up, page_down}

module _ (data' : Data) {O : Type 0} where
  -- A window on data whose sizes are far from the ends of `int`.
  pub record Fits (d : data'.State) (s : Scroll O) : Type 0 where
    pub starts : pos 0 ≤ℤ s.offset
    pub holds : pos 1 ≤ℤ s.capacity
    pub offset_half : IsHalf s.offset
    pub capacity_half : IsHalf s.capacity
    pub len_half : IsHalf (data'.len d)

  can_down→lt :
      (d : data'.State) (s : Scroll O)
      → Fits d s
      → can_down data' d s ≡ true
      → s.offset <ℤ sub (data'.len d) s.capacity
  unfolding can_down
  can_down→lt d s f h = ground arith

  down_offset :
      (d : data'.State) (s : Scroll O)
      → Fits d s
      → can_down data' d s ≡ true
      → (down data' d s).0 ≡ record s { offset = add s.offset (pos 1) }
  unfolding down
  down_offset d s f h = rw h (
      ap (λ x. record s { offset = x })
        (ground (
          arith,
          can_down→lt d s f h,
          add_parts s.offset (pos 1),
          sub_parts (data'.len d) s.capacity,
        )))

  page_down_offset :
      (d : data'.State) (s : Scroll O)
      → Fits d s
      → can_down data' d s ≡ true
      → (page_down data' d s).0 ≡ record s { offset = add s.offset s.capacity }
  unfolding page_down
  page_down_offset d s f h = rw h (
      ap (λ x. record s { offset = x })
        (ground (
          arith,
          can_down→lt d s f h,
          add_parts s.offset s.capacity,
          sub_parts (data'.len d) s.capacity,
          sub_parts (data'.len d) (pos 1),
        )))

  up_offset :
      (d : data'.State) (s : Scroll O)
      → pos 0 <ℤ s.offset
      → (up data' d s).0 ≡ record s { offset = sub s.offset (pos 1) }
  unfolding up can_up
  up_offset d s h = ground arith

  page_up_offset :
      (d : data'.State) (s : Scroll O)
      → pos 0 <ℤ s.offset
      → (page_up data' d s).0 ≡ record s { offset = max_ℤ (pos 0) (sub s.offset s.capacity) }
  unfolding page_up can_up
  page_up_offset d s h = ground arith

  -- Where Down and PageDown move at all, they move by one and by the capacity, and Up and PageUp
  -- bring the window back to where it was.
  pub up-down :
      (d : data'.State) (s : Scroll O)
      → Fits d s
      → can_down data' d s ≡ true
      → ((down data' d s).0.offset ≡ add s.offset (pos 1))
        × ((up data' d (down data' d s).0).0 ≡ s)
        × ((page_down data' d s).0.offset ≡ add s.offset s.capacity)
        × ((page_up data' d (page_down data' d s).0).0 ≡ s)
  up-down d s f h =
      rw
        (
          down_offset d s f h,
          page_down_offset d s f h,
          up_offset d (record s { offset = add s.offset (pos 1) })
              (ground (arith, add_parts s.offset (pos 1))),
          page_up_offset d (record s { offset = add s.offset s.capacity })
              (ground (arith, add_parts s.offset s.capacity)),
        )
        (refl, ap (λ x. record s { offset = x }) one, refl, ap (λ x. record s { offset = x }) page)
    where
      gap : s.offset <ℤ sub (data'.len d) s.capacity
      gap = can_down→lt d s f h

      one : sub (add s.offset (pos 1)) (pos 1) ≡ s.offset
      one = ground (
        arith,
        gap,
        add_parts s.offset (pos 1),
        sub_parts (data'.len d) s.capacity,
        sub_parts (add s.offset (pos 1)) (pos 1),
        eq_of_parts (sub (add s.offset (pos 1)) (pos 1)) s.offset,
      )

      page : max_ℤ (pos 0) (sub (add s.offset s.capacity) s.capacity) ≡ s.offset
      page = ground (
        arith,
        gap,
        add_parts s.offset s.capacity,
        sub_parts (data'.len d) s.capacity,
        sub_parts (add s.offset s.capacity) s.capacity,
        eq_of_parts (sub (add s.offset s.capacity) s.capacity) s.offset,
      )
