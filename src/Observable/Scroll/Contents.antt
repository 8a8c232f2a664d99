-- ===== src/Observable/Scroll/Contents.antt =====
-- observable/controllers/scroll/scroll.go: which element of the data a key of the window stands for.
use zugoui.Prelude.{
  ℕ, zero, suc, ◌+◌, ◌-◌, ◌≤◌, ◌<◌, ◌^◌, codes, [], ◌++◌, true, false, ltb, if◌then◌else◌, ◌≡◌,
  refl, ◌∙◌, ap, arith, ◌⊎◌, inl, inr, Bool-cases, ltb→lt,
}
use zugoui.Prelude.Int.{pos, add, sub, add_parts, sub_parts, eq_of_parts}
use zugoui.Prelude.Decimal.{itoa, atoi-itoa, text_eq-itoa}
use zugoui.Observable.Observe.{set_value, notify}
use zugoui.Observable.Scroll.{
  Data, Scroll, Notes, rounds, outside, show_from, show_arrows, update_all, data_set_value, set_key,
  get_key, get_index, get_at,
}

module _ (data' : Data) {O : Type 0} (s : Scroll O) where
  open data' use {State, Datum}

  -- The keys of the window in order, each with what ValueAt returns for it.
  pub shown : State → ℕ → ℕ → Notes O Datum
  shown d index zero = []
  shown d index (suc left) =
      notify s.observe (set_value (itoa (pos index)) (get_at data' d s (pos index)))
      ++ shown d (suc index) left

module _ (data' : Data) {O : Type 0} (s : Scroll O) (o c : ℕ) (at : s.offset ≡ pos o)
    (size : s.capacity ≡ pos c) (small : o < 2 ^ 61) (small' : c < 2 ^ 61) where
  open data' use {State, Datum}

  add_offset : (i : ℕ) → i < c → add (pos i) s.offset ≡ pos (i + o)
  add_offset i h =
      rw at
        (ground (arith, add_parts (pos i) (pos o), eq_of_parts (add (pos i) (pos o)) (pos (i + o))))

  sub_offset : (i : ℕ) → i < c → sub (pos (i + o)) s.offset ≡ pos i
  sub_offset i h = rw at (
      ground
        (arith, sub_parts (pos (i + o)) (pos o), eq_of_parts (sub (pos (i + o)) (pos o)) (pos i)))

  inside : (i : ℕ) → i < c → outside (pos i) s.capacity ≡ false
  inside i h = rw size (ground arith)

  get_key_lem :
      (d : State) (i : ℕ)
      → i < c
      → get_key data' d s (itoa (pos i)) ≡ data'.value d (itoa (pos (i + o)))
  unfolding get_key get_index
  get_key_lem d i h = rw (
    text_eq-itoa i b'l' (codes "en") (omega arith),
    text_eq-itoa i b'c' (codes "ap") (omega arith),
    text_eq-itoa i b'c' (codes "anUp") (omega arith),
    text_eq-itoa i b'c' (codes "anDown") (omega arith),
    text_eq-itoa i b'v' (codes "alue") (omega arith),
    atoi-itoa (pos i) (omega arith),
    inside i h,
    add_offset i h,
  )

  data_set_value_lem :
      (i : ℕ) (v : Datum)
      → i < c
      → data_set_value data' s (itoa (pos (i + o))) v
        ≡ notify s.observe (set_value (itoa (pos i)) v)
  unfolding data_set_value
  data_set_value_lem i v h = rw (atoi-itoa (pos (i + o)) (omega arith), sub_offset i h, inside i h)

  sub-outside :
      (n : ℕ)
      → n < 2 ^ 61
      → (n < o) ⊎ (o + c ≤ n)
      → outside (sub (pos n) s.offset) s.capacity ≡ true
  sub-outside n hn h = rw (at, size) (ground (arith, sub_parts (pos n) (pos o)))

  data_set_value_outside :
      (n : ℕ) (v : Datum)
      → n < 2 ^ 61
      → (n < o) ⊎ (o + c ≤ n)
      → data_set_value data' s (itoa (pos n)) v ≡ []
  unfolding data_set_value
  data_set_value_outside n v hn h = rw (atoi-itoa (pos n) (omega arith), sub-outside n hn h)

  -- In a window at offset `o` of capacity `c`, key `i` reads the element `i + o` of the data, a
  -- change of that element is notified to the window's observers under key `i`, and a change of an
  -- element before or behind the window is not notified.
  pub get_key-data_set_value :
      (d : State) (i n : ℕ) (v : Datum)
      → i < c
      → n < 2 ^ 61
      → (n < o) ⊎ (o + c ≤ n)
      → (get_key data' d s (itoa (pos i)) ≡ data'.value d (itoa (pos (i + o))))
        × (data_set_value data' s (itoa (pos (i + o))) v
            ≡ notify s.observe (set_value (itoa (pos i)) v))
        × (data_set_value data' s (itoa (pos n)) v ≡ [])
  get_key-data_set_value d i n v h hn out =
      (get_key_lem d i h, data_set_value_lem i v h, data_set_value_outside n v hn out)

  get_at_lem :
      (d : State) (i : ℕ)
      → i < c
      → get_at data' d s (pos i) ≡ data'.value_at d (add (pos i) s.offset)
  unfolding get_at
  get_at_lem d i h = rw (inside i h)

  show_from-shown :
      (d : State) (index left : ℕ)
      → index + left ≤ c
      → show_from data' d s index left ≡ shown data' s d index left
  unfolding show_from shown
  show_from-shown d index zero h = refl
  show_from-shown d index (suc left) h =
      rw (get_at_lem d index (omega arith), show_from-shown d (suc index) left (omega arith))

  -- A move notifies each key of the window, in order, with the value that ValueAt returns for it,
  -- and then the two arrows.
  pub update_all-get_at :
      (d : State) → update_all data' d s ≡ shown data' s d 0 c ++ show_arrows data' d s
  unfolding update_all
  update_all-get_at d =
      ap (λ (r : Notes O Datum). r ++ show_arrows data' d s)
        (ap (show_from data' d s 0) (ap rounds size) ∙ show_from-shown d 0 c (omega arith))

  below : (i : ℕ) → i < o → outside (sub (pos i) s.offset) s.capacity ≡ true
  below i h = sub-outside i (omega arith) (inl h)

  above : (i : ℕ) → o ≤ i → i < 2 ^ 62 → sub (pos i) s.offset ≡ pos (i - o)
  above i h small'' =
      rw at
        (ground (arith, sub_parts (pos i) (pos o), eq_of_parts (sub (pos i) (pos o)) (pos (i - o))))

  -- SetValue subtracts the offset where Value adds it: behind an offset, a key of the window that is
  -- below the offset changes nothing, and any other key writes the element `i - o` and not `i + o`.
  pub set_key_misses :
      (d : State) (i : ℕ) (v : Datum)
      → data'.mutable ≡ true
      → i < c
      → set_key data' d s (itoa (pos i)) v
        ≡ (if ltb i o then d else data'.set_value d (itoa (pos (i - o))) v)
  unfolding set_key
  set_key_misses d i v m h = elim (Bool-cases (ltb i o)) [
    | inl lo ↦ rw (m, atoi-itoa (pos i) (omega arith), below i (ltb→lt i o lo), lo)
    | inr hi ↦ rw (
      m,
      atoi-itoa (pos i) (omega arith),
      above i (ground arith) (omega arith),
      inside (i - o) (omega arith),
      hi,
    )
  ]
