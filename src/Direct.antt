-- ===== src/Direct.antt =====
-- crates/orbit-transport/src/direct.rs: `recv_frames` on a byte stream. The stream is the list of
-- what its reads return, an empty piece or the end of the list being its end; a read that fails is
-- not modelled. Every call has a new buffer. `recv_each` is the task of session.rs that calls it.
pub mod Frames
pub mod Peer
use orbit_transfer.Prelude.{
  Bool, true, false, not, ℕ, zero, suc, List, [], ◌∷◌, ◌++◌, Option, none, some, ltb, if◌then◌else◌,
  length,
}
use orbit_transfer.Wire.{OrbitMessage, Outcome, ok, err, panic, ProtocolError, parse_frame}

pub data Received : Type 0 where
  message : OrbitMessage → Received
  closed : Received
  refused : ProtocolError → Received
  panicked : Received

-- `parse_frame` on a buffer that has a header.
unfoldable pub parsed : List ℕ → Outcome (Option OrbitMessage)
parsed buf = if ltb (length buf) 5 then ok none else (parse_frame buf).0

-- The loop from a buffer on: the result, and the reads that are left. The buffer is lost.
unfoldable pub recv_loop : List (List ℕ) → List ℕ → Received × List (List ℕ)
unfolding parsed
recv_loop [] buf = elim (parsed buf) [
  | ok (some m) ↦ (message m, [])
  | ok none ↦ (closed, [])
  | err e ↦ (refused e, [])
  | panic ↦ (panicked, [])
]
recv_loop ([] ∷ pieces) buf = elim (parsed buf) [
  | ok (some m) ↦ (message m, [] ∷ pieces)
  | ok none ↦ (closed, pieces)
  | err e ↦ (refused e, [] ∷ pieces)
  | panic ↦ (panicked, [] ∷ pieces)
]
recv_loop ((b ∷ piece) ∷ pieces) buf = elim (parsed buf) [
  | ok (some m) ↦ (message m, (b ∷ piece) ∷ pieces)
  | ok none ↦ recv_loop pieces (buf ++ b ∷ piece)
  | err e ↦ (refused e, (b ∷ piece) ∷ pieces)
  | panic ↦ (panicked, (b ∷ piece) ∷ pieces)
]

unfoldable pub recv_frames : List (List ℕ) → Received × List (List ℕ)
unfolding recv_loop
recv_frames pieces = recv_loop pieces []

-- The task of a direct link calls `recv` until it returns no message. A message takes at least one
-- read, so that one call more than there are reads is enough.
unfoldable pub recv_each : ℕ → List (List ℕ) → List OrbitMessage
unfolding recv_frames
recv_each zero pieces = []
recv_each (suc calls) pieces =
    let (received, rest) = recv_frames pieces in
    let later = recv_each calls rest in
    elim received [ message m ↦ m ∷ later | closed ↦ [] | refused e ↦ [] | panicked ↦ [] ]

-- What the task of a direct link reads from a stream.
unfoldable pub recv_stream : List (List ℕ) → List OrbitMessage
unfolding recv_each
recv_stream pieces = recv_each (suc (length pieces)) pieces

-- What a caller observes of a `DirectWriter`: the flag, and whether its queue has room.
pub record DirectWriter : Type 0 where
  pub is_alive : Bool
  pub has_room : Bool

unfoldable pub try_send : DirectWriter → Bool
try_send w = if not w.is_alive then false else w.has_room
