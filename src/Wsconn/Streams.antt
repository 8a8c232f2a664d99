-- ===== src/Wsconn/Streams.antt =====
-- wsconn: what an endpoint receives of the messages that the other side sends.
use zugoui.Prelude.{
  ℕ, List, [], ◌∷◌, ◌++◌, Bool, Option, none, some, ◌==◌, if◌then◌else◌, ◌≡◌, refl, sym, ap, ◌∙◌,
  arith, append_assoc, append-nil, Bool-cases, inl, inr,
}
use zugoui.Wsconn.{
  Bytes, Frame, ReadError, error, read_message, write_to, Endpoint, Endpoints, input, close,
  deliver, close_all, reason, demux,
}

module _ {E : Type 0} where
  -- d.endpoints[a]
  unfoldable pub find : ℕ → Endpoints E → Option (Endpoint E)
  find a [] = none
  find a ((b, ep) ∷ d) = if b == a then some ep else find a d

  -- the frames of writes to endpoints of the other side, in the order of the writes
  unfoldable pub sent : List (ℕ × Bytes) → List (Frame E)
  unfolding write_to
  sent [] = []
  sent ((a, p) ∷ writes) = write_to p a ∷ sent writes

-- the bytes of the writes to one address
unfoldable pub bytes_to : ℕ → List (ℕ × Bytes) → Bytes
bytes_to a [] = []
bytes_to a ((b, p) ∷ writes) = let rest = bytes_to a writes in if b == a then p ++ rest else rest

module _ {E : Type 0} where
  fed : Bytes → Option (Endpoint E) → Option (Endpoint E)
  fed msg none = none
  fed msg (some ep) = some (input msg ep)

  find-deliver :
      (a addr : ℕ) (msg : Bytes) (d : Endpoints E)
      → find a (deliver addr msg d) ≡ (if addr == a then fed msg (find a d) else find a d)
  unfolding find deliver fed
  find-deliver a addr msg [] = ground arith
  find-deliver a addr msg ((b, e) ∷ d) = ground (arith, find-deliver a addr msg d)

  find-close_all :
      (a : ℕ) (err : Option (ReadError E)) (d : Endpoints E) (ep : Endpoint E)
      → find a d ≡ some ep
      → find a (close_all err d) ≡ some (close err ep)
  unfolding find close_all
  find-close_all a err [] ep h = cc
  find-close_all a err ((b, e) ∷ d) ep h = elim (Bool-cases (b == a)) [
    | inl t ↦ rw t (ap (λ (x : Endpoint E). some (close err x)) (found (rw t at h)))
    | inr n ↦ rw n (find-close_all a err d ep (rw n at h))
  ]
    where
      found : some e ≡ some ep → e ≡ ep
      found q = cc

  -- the bytes that were received, for an endpoint that is open
  delivered : ℕ → List (ℕ × Bytes) → Endpoint E → Endpoint E
  delivered a writes ep = record ep { received = ep.received ++ bytes_to a writes }

  demux-following :
      (canceled : E → Bool) (a : ℕ) (writes : List (ℕ × Bytes)) (rest : List (Frame E))
      (d : Endpoints E) (ep : Endpoint E)
      → find a d ≡ some ep
      → ep.closed ≡ none
      → (d' : Endpoints E) × (demux canceled (sent writes ++ rest) d ≡ demux canceled rest d')
        × (find a d' ≡ some (delivered a writes ep))
  unfolding demux sent bytes_to delivered read_message fed input
  demux-following canceled a [] rest d ep h o = (d, refl, rw (append-nil ep.received) h)
  demux-following canceled a ((b, p) ∷ writes) rest d ep h o = elim (Bool-cases (b == a)) [
    | inl t ↦
        let (d', went, held) =
          demux-following canceled a writes rest (deliver b p d)
            (record ep { received = ep.received ++ p }) (find-deliver a b p d ∙ rw (t, h) (taken o))
            o in
        (d', went, held ∙ rw t (ap more (append_assoc ep.received p (bytes_to a writes))))
    | inr n ↦
        let (d', went, held) =
          demux-following canceled a writes rest (deliver b p d) ep
            (find-deliver a b p d ∙ rw (n, h) refl) o in
        (d', went, held ∙ rw n refl)
  ]
    where
      more : Bytes → Option (Endpoint E)
      more x = some (record ep { received = x })

      taken : ep.closed ≡ none → fed p (some ep) ≡ some (record ep { received = ep.received ++ p })
      taken q = rw q refl

  -- An open endpoint receives the bytes of the writes to its address, in order, however they are
  -- mixed with writes to other addresses; the first frame that is no message then closes it, with
  -- that error or, for a canceled context, with none, and nothing behind that frame arrives.
  pub demux-sent :
      (canceled : E → Bool) (a : ℕ) (writes : List (ℕ × Bytes)) (bad : Frame E) (e : ReadError E)
      (rest : List (Frame E)) (d : Endpoints E) (ep : Endpoint E)
      → find a d ≡ some ep
      → ep.closed ≡ none
      → read_message bad ≡ error e
      → (find a (demux canceled (sent writes) d)
          ≡ some (record ep { received = ep.received ++ bytes_to a writes }))
        × (find a (demux canceled (sent writes ++ bad ∷ rest) d)
            ≡ some (record {
              received = ep.received ++ bytes_to a writes;
              closed = some (reason canceled e);
            }))
  unfolding demux close delivered
  demux-sent canceled a writes bad e rest d ep h o r =
      let (d₁, went, held) = demux-following canceled a writes [] d ep h o in
      let (d₂, gone, left) = demux-following canceled a writes (bad ∷ rest) d ep h o in
      (
        ap (λ fs. find a (demux canceled fs d)) (sym (append-nil (sent writes)))
            ∙ ap (find a) went
            ∙ held,
        ap (find a) gone ∙ stopped d₂ left,
      )
    where
      closing :
          ep.closed ≡ none
          → close (reason canceled e) (delivered a writes ep) ≡ record {
            received = ep.received ++ bytes_to a writes;
            closed = some (reason canceled e);
          }
      closing q = rw q refl

      stopped :
          (d' : Endpoints E)
          → find a d' ≡ some (delivered a writes ep)
          → find a (demux canceled (bad ∷ rest) d')
            ≡ some (record {
              received = ep.received ++ bytes_to a writes;
              closed = some (reason canceled e);
            })
      stopped d' left = rw r (
          find-close_all a (reason canceled e) d' (delivered a writes ep) left
          ∙ ap some (closing o))
