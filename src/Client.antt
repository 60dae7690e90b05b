-- ===== src/Client.antt =====
-- crates/orbit-transport/src/client.rs: the two halves of a connection to a relay. The WebSocket is
-- the list of what its stream yields, the end of the list being the end of the stream.
pub mod Recv
use orbit_transfer.Prelude.{ℕ, Bool, true, false, List, [], ◌∷◌, Option, none, some}
use orbit_transfer.Wire.{OrbitMessage, Outcome, ok, err, panic, ProtocolError, encode, parse_frame}
use orbit_transfer.Relay.{WsOut, binary, close}

-- What the stream of a WebSocket yields.
pub data Incoming : Type 0 where
  binary_frame : List ℕ → Incoming
  close_frame : Incoming
  other_frame : Incoming
  failure : Incoming

-- `anyhow::Result<Option<OrbitMessage>>`; `closed` is `Ok(None)`.
pub data RecvResult : Type 0 where
  message : OrbitMessage → RecvResult
  closed : RecvResult
  refused : ProtocolError → RecvResult
  broken : RecvResult
  panicked : RecvResult

-- `RelaySink::send` and `send_close`: what is written.
unfoldable pub send : OrbitMessage → WsOut
send m = binary (encode m)

unfoldable pub send_close : WsOut
send_close = close

-- A frame that is not complete is `Ok(None)`, which is also the result of a close.
unfoldable pub of_parsed : Outcome (Option OrbitMessage) → RecvResult
of_parsed (ok (some m)) = message m
of_parsed (ok none) = closed
of_parsed (err e) = refused e
of_parsed panic = panicked

-- What `recv` returns for one item; `none` is `continue`.
unfoldable pub recv_item : Incoming → Option RecvResult
unfolding of_parsed
recv_item (binary_frame bytes) = some (of_parsed (parse_frame bytes).0)
recv_item close_frame = some closed
recv_item other_frame = none
recv_item failure = some broken

-- The result, and what is left in the stream.
unfoldable pub recv : List Incoming → RecvResult × List Incoming
unfolding recv_item
recv [] = (closed, [])
recv (item ∷ rest) = elim (recv_item item) [ some result ↦ (result, rest) | none ↦ recv rest ]

-- True when the stream ended, false when it failed.
unfoldable pub drain_until_closed : List Incoming → Bool
drain_until_closed [] = true
drain_until_closed (failure ∷ rest) = false
drain_until_closed (binary_frame bytes ∷ rest) = drain_until_closed rest
drain_until_closed (close_frame ∷ rest) = drain_until_closed rest
drain_until_closed (other_frame ∷ rest) = drain_until_closed rest

-- The loop of a task that calls `recv` until the connection ends: the messages, in their order.
unfoldable pub recv_all : List Incoming → List OrbitMessage
unfolding recv_item
recv_all [] = []
recv_all (item ∷ rest) =
    let more = recv_all rest in
    elim (recv_item item) [
      | some (message m) ↦ m ∷ more
      | some closed ↦ []
      | some (refused e) ↦ []
      | some broken ↦ []
      | some panicked ↦ []
      | none ↦ more
    ]
