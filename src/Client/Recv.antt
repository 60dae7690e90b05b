-- ===== src/Client/Recv.antt =====
-- What a peer sends is what `recv` of crates/orbit-transport/src/client.rs reads.
use orbit_transfer.Prelude.{◌≤◌, ◌≡◌, refl, sym, ap, ◌∙◌, List, [], ◌∷◌, ◌++◌, map, some, All}
use mathlib.Core.List.{append-nil}
use orbit_transfer.Wire.Fields.{IsMessage, TextFits, payload_len}
use orbit_transfer.Wire.Frames.{parse_frame-encode}
use orbit_transfer.Wire.{OrbitMessage, encode, parse_frame, max_frame}
use orbit_transfer.Relay.{WsOut, binary, pong, close}
use orbit_transfer.Client.{
  Incoming, binary_frame, close_frame, other_frame, message, send, of_parsed, recv_item, recv_all,
}

-- A message that the format can carry.
abbrev pub Sendable : OrbitMessage → Type 0
Sendable m = IsMessage m × TextFits m × (payload_len m ≤ max_frame)

-- What the peer's stream yields for what is written.
abbrev pub arrival : WsOut → Incoming
arrival (binary bytes) = binary_frame bytes
arrival (pong p) = other_frame
arrival close = close_frame

pub recv_item-send :
    (m : OrbitMessage) → Sendable m → recv_item (arrival (send m)) ≡ some (message m)
unfolding recv_item send of_parsed
recv_item-send m (h, fits, short) =
    let parsed = parse_frame-encode m short h fits [] in
    ap (λ t. some (of_parsed t.0)) (ap parse_frame (sym (append-nil (encode m))) ∙ parsed)

-- `recv` in a loop reads the messages that were sent, all and in their order, up to the close.
pub recv_all-send :
    (ms : List OrbitMessage) (rest : List Incoming)
    → All Sendable ms
    → recv_all (map (λ m. arrival (send m)) ms ++ rest) ≡ ms ++ recv_all rest
unfolding recv_all
recv_all-send [] rest h = refl
recv_all-send (m ∷ ms) rest h =
    rw (recv_item-send m h.0, recv_all) (ap (λ t. m ∷ t) (recv_all-send ms rest h.1))
