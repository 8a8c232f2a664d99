-- ===== src/Wsconn.antt =====
-- wsconn/message.go and wsconn/endpoint.go: several byte streams over one websocket.
--
-- A websocket is the list of what its Read returns, in order; `E` is the type of its errors, and
-- `canceled` tells which of them wrap context.Canceled. An endpoint's pipe is the list of the bytes
-- that were written to it, and how it was closed. A byte is a number.
pub mod Streams
mod Tests
use zugoui.Prelude.{
  ℕ, List, [], ◌∷◌, ◌++◌, Bool, true, false, Option, none, some, length, take, ltb, leb, ◌==◌,
  if◌then◌else◌,
}

abbrev pub Bytes : Type 0
Bytes = List ℕ

pub data Frame (E : Type 0) : Type 0 where
  failed : E → Frame E
  text_message : Bytes → Frame E
  binary_message : Bytes → Frame E

pub data ReadError (E : Type 0) : Type 0 where
  of_conn : E → ReadError E
  err_not_binary : ReadError E
  err_truncated : ReadError E
  err_zero : ReadError E

pub data Read (E : Type 0) : Type 0 where
  message : Bytes → ℕ → Read E
  error : ReadError E → Read E

module _ {E : Type 0} where
  -- ReadMessage: the bytes of a message, and its address
  unfoldable pub read_message : Frame E → Read E
  read_message (failed e) = error (of_conn e)
  read_message (text_message buf) = error err_not_binary
  read_message (binary_message []) = error err_zero
  read_message (binary_message (b ∷ buf)) = message buf b

  read_into : ℕ → Read E → Bytes × Option (ReadError E)
  read_into room (error e) = ([], some e)
  read_into room (message buf addr) =
      (take room buf, if ltb room (length buf) then some err_truncated else none)

  -- ReadFrom, with a buffer of a length: the bytes that it gets, and the error
  unfoldable pub read_from : ℕ → Frame E → Bytes × Option (ReadError E)
  unfolding read_into read_message
  read_from room f = read_into room (read_message f)

  -- WriteTo: the message that it sends
  unfoldable pub write_to : Bytes → ℕ → Frame E
  write_to p addr = binary_message (addr ∷ p)

-- An endpoint; `closed` is none while its pipe is open, and else the error of CloseWithError.
pub record Endpoint (E : Type 0) : Type 0 where
  pub received : Bytes
  pub closed : Option (Option (ReadError E))

abbrev pub Endpoints : Type 0 → Type 0
Endpoints E = List (ℕ × Endpoint E)

module _ {E : Type 0} where
  unfoldable pub new_endpoint : Endpoint E
  new_endpoint = record { received = []; closed = none }

  -- Demux.NewEndpoint, which takes the place of an endpoint of the same address
  unfoldable pub add_endpoint : ℕ → Endpoints E → Endpoints E
  unfolding new_endpoint
  add_endpoint local [] = (local, new_endpoint) ∷ []
  add_endpoint local ((a, ep) ∷ d) =
      if a == local then (local, new_endpoint) ∷ d else (a, ep) ∷ add_endpoint local d

  pipe_write : Bytes → Option (Option (ReadError E)) → Endpoint E → Endpoint E
  pipe_write msg none ep = record ep { received = ep.received ++ msg }
  pipe_write msg (some e) ep = ep

  -- endpoint.input; a write to a closed pipe does nothing
  unfoldable pub input : Bytes → Endpoint E → Endpoint E
  unfolding pipe_write
  input msg ep = pipe_write msg ep.closed ep

  pipe_close : Option (ReadError E) → Option (Option (ReadError E)) → Endpoint E → Endpoint E
  pipe_close err none ep = record ep { closed = some err }
  pipe_close err (some e) ep = ep

  -- endpoint.close; the first error of CloseWithError stays
  unfoldable pub close : Option (ReadError E) → Endpoint E → Endpoint E
  unfolding pipe_close
  close err ep = pipe_close err ep.closed ep

  unfoldable pub deliver : ℕ → Bytes → Endpoints E → Endpoints E
  unfolding input
  deliver addr msg [] = []
  deliver addr msg ((a, ep) ∷ d) =
      if a == addr then (a, input msg ep) ∷ d else (a, ep) ∷ deliver addr msg d

  unfoldable pub close_all : Option (ReadError E) → Endpoints E → Endpoints E
  unfolding close
  close_all err [] = []
  close_all err ((a, ep) ∷ d) = (a, close err ep) ∷ close_all err d

module _ {E : Type 0} (canceled : E → Bool) where
  -- the error with which the endpoints are closed
  unfoldable pub reason : ReadError E → Option (ReadError E)
  reason (of_conn e) = if canceled e then none else some (of_conn e)
  reason err_not_binary = some err_not_binary
  reason err_truncated = some err_truncated
  reason err_zero = some err_zero

  -- one round of the loop of NewDemux, before the rounds of the frames that follow
  round : Read E → Endpoints E → (Endpoints E → Endpoints E) → Endpoints E
  unfolding deliver close_all reason
  round (message msg addr) d following = following (deliver addr msg d)
  round (error e) d following = close_all (reason e) d

  -- the goroutine of NewDemux, over what Read returns
  unfoldable pub demux : List (Frame E) → Endpoints E → Endpoints E
  unfolding round read_message
  demux [] d = d
  demux (f ∷ fs) d = round (read_message f) d (λ d'. demux fs d')
