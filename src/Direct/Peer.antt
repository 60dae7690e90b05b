-- ===== src/Direct/Peer.antt =====
-- crates/orbit-transport/src/direct.rs: `P2pListener` and `P2pChannel`, which choose TCP or QUIC by the
-- address, and the address that `ReceiverSession::connect` of
-- crates/orbit-transport/src/session.rs advertises. A text is the list of its bytes. The sockets are
-- a parameter: what a bind reports as its local address, and whether a connection is made.
use orbit_transfer.Prelude.{
  ℕ, Bool, true, false, List, [], ◌∷◌, ◌++◌, Option, none, some, ◌==◌, if◌then◌else◌, ◌>>=◌,
}

-- `quic://`.
abbrev pub quic_prefix : List ℕ
quic_prefix = 113 ∷ 117 ∷ 105 ∷ 99 ∷ 58 ∷ 47 ∷ 47 ∷ []

-- `str::strip_prefix`.
unfoldable pub strip_prefix : List ℕ → List ℕ → Option (List ℕ)
strip_prefix [] text = some text
strip_prefix (c ∷ prefix) [] = none
strip_prefix (c ∷ prefix) (d ∷ text) =
    let rest = strip_prefix prefix text in if c == d then rest else none

unfoldable pub starts_with : List ℕ → List ℕ → Bool
unfolding strip_prefix
starts_with text prefix = elim (strip_prefix prefix text) [ some rest ↦ true | none ↦ false ]

-- A socket address, on the transport that is used with it.
pub data Endpoint : Type 0 where
  tcp : List ℕ → Endpoint
  quic : List ℕ → Endpoint

-- `addr.strip_prefix("quic://").unwrap_or(addr)`.
unfoldable pub without_prefix : List ℕ → List ℕ
unfolding strip_prefix
without_prefix addr = elim (strip_prefix quic_prefix addr) [ some rest ↦ rest | none ↦ addr ]

-- The endpoint that `P2pChannel::connect` and `P2pListener::bind` take for an address.
unfoldable pub endpoint : List ℕ → Endpoint
unfolding starts_with without_prefix
endpoint addr = if starts_with addr quic_prefix then quic (without_prefix addr) else tcp addr

-- `P2pChannel::connect`: the endpoint, if a connection to it is made.
unfoldable pub connect : (Endpoint → Bool) → List ℕ → Option Endpoint
unfolding endpoint
connect reaches addr = if reaches (endpoint addr) then some (endpoint addr) else none

-- The same transport, on the local address.
unfoldable pub with_local : Endpoint → List ℕ → Endpoint
with_local (tcp addr) local = tcp local
with_local (quic addr) local = quic local

-- `P2pListener::bind`: the local address that the socket reports, and the listener's transport with it.
unfoldable pub bind : (Endpoint → Option (List ℕ)) → List ℕ → Option (List ℕ × Endpoint)
unfolding endpoint with_local
bind sockets addr = do
  local ← sockets (endpoint addr)
  some (local, with_local (endpoint addr) local)

-- `format!("{prefix}{local}")`.
unfoldable pub advertised : List ℕ → List ℕ → List ℕ
unfolding starts_with
advertised addr local = if starts_with addr quic_prefix then quic_prefix ++ local else local

-- What the receiver advertises when it listens on an address; without an address, or when the
-- bind fails, nothing.
unfoldable pub advertise :
    (Endpoint → Option (List ℕ)) → Option (List ℕ) → Option (List ℕ × Endpoint)
unfolding bind advertised
advertise sockets none = none
advertise sockets (some addr) = do
  (local, listener) ← bind sockets addr
  some (advertised addr local, listener)
