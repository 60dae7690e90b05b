-- ===== src/Relay/Reach.antt =====
-- The relay of crates/orbit-relay/src/lib.rs as a state machine: its connections' steps, interleaved
-- in any order.
use orbit_transfer.Prelude.{ℕ, List, [], ◌∷◌, ◌++◌}
use orbit_transfer.Wire.{OrbitMessage}
use orbit_transfer.Relay.{Link, RelayCore, new_relay, Sends, pong, close, route, leave_room}
use orbit_transfer.Relay.Routing.{IsRelay, route-IsRelay}
use orbit_transfer.Relay.Connection.{leave_room-IsRelay}

-- The states that steps lead to, and what has been sent: a message of some connection is routed, a
-- connection leaves a room, or a connection is sent a Pong or a Close of its own.
pub data Reach (start : RelayCore) : RelayCore → Sends → Type 0 where
  at_start : Reach start start []
  routed :
      {core : RelayCore} {sent : Sends}
      → Reach start core sent
      → (m : OrbitMessage) (link : Link)
      → Reach start (route core m link).0 (sent ++ (route core m link).1)
  left :
      {core : RelayCore} {sent : Sends}
      → Reach start core sent
      → (id conn : ℕ) → Reach start (leave_room core id conn) sent
  ponged :
      {core : RelayCore} {sent : Sends}
      → Reach start core sent
      → (p : List ℕ) (link : Link) → Reach start core (sent ++ (link.tx, pong p) ∷ [])
  closing :
      {core : RelayCore} {sent : Sends}
      → Reach start core sent
      → (link : Link) → Reach start core (sent ++ (link.tx, close) ∷ [])

-- However the messages and the ends of all connections are interleaved, the rooms of a relay that
-- was just made stay in order: each counter is the size of its buffer, which is within the limit or
-- one message, and a room with a receiver has an empty buffer.
pub Reach-IsRelay : {core : RelayCore} {sent : Sends} → Reach new_relay core sent → IsRelay core
unfolding IsRelay
Reach-IsRelay at_start = λ id room found. cc
Reach-IsRelay (routed r m link) = route-IsRelay _ m link (Reach-IsRelay r)
Reach-IsRelay (left r id conn) = leave_room-IsRelay _ id conn (Reach-IsRelay r)
Reach-IsRelay (ponged r p link) = Reach-IsRelay r
Reach-IsRelay (closing r link) = Reach-IsRelay r
