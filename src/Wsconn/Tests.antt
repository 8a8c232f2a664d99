-- ===== src/Wsconn/Tests.antt =====
-- wsconn: tests, and the theorem at a concrete input.
use zugoui.Prelude.{ℕ, [], ◌∷◌, ◌++◌, List, Bool, false, none, some, ◌≡◌, refl}
use zugoui.Wsconn.{
  Frame, failed, text_message, binary_message, of_conn, err_not_binary, err_truncated, read_from,
  write_to, Endpoint, Endpoints, add_endpoint, demux, Bytes,
}
use zugoui.Wsconn.Streams.{find, sent, demux-sent}

never : ℕ → Bool
never e = false

-- two endpoints, of a browser and of a server
abbrev two : Endpoints ℕ
two = add_endpoint 1 (add_endpoint 2 [])

abbrev writes : List (ℕ × Bytes)
writes = (1, 10 ∷ 11 ∷ []) ∷ (2, 20 ∷ []) ∷ (1, 12 ∷ []) ∷ (3, 30 ∷ []) ∷ []

truncated : read_from {E = ℕ} 1 (write_to (10 ∷ 11 ∷ []) 4) ≡ (10 ∷ [], some err_truncated)
unfolding read_from write_to
truncated = refl

demux-sent_example :
    (find 1 (demux never (sent writes) two)
      ≡ some (record { received = 10 ∷ 11 ∷ 12 ∷ []; closed = none }))
    × (find 1 (demux never (sent writes ++ text_message [] ∷ sent writes) two)
        ≡ some (record { received = 10 ∷ 11 ∷ 12 ∷ []; closed = some (some err_not_binary) }))
unfolding find add_endpoint zugoui.Wsconn.read_message zugoui.Wsconn.Streams.bytes_to
    zugoui.Wsconn.reason
demux-sent_example =
    demux-sent never 1 writes (text_message []) err_not_binary (sent writes) two
      (record { received = []; closed = none }) refl refl refl
