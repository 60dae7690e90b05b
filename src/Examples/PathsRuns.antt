-- ===== src/Examples/PathsRuns.antt =====
-- The sender and the receiver of SessionRuns over two relays, of which the first is the slower.
use orbit_transfer.Prelude.{
  Option, ℕ, ◌<◌, true, false, List, [], ◌∷◌, ◌++◌, some, arith, replicate, ◌==◌,
}
use orbit_transfer.Prelude.Le.{le_bytes}
use orbit_transfer.Wire.{
  OrbitMessage, symbol, hello, role_sender, role_receiver, encode, encode_parts,
}
use orbit_transfer.Pipeline
use orbit_transfer.Pipeline.{Action, pushes, drains, leaves, idle}
use orbit_transfer.Pipeline.Order.{InOrder, run-idle}
use orbit_transfer.Relay.{RelayCore, WsOut, new_relay, route, route_hello, hello_receiver}
use orbit_transfer.Client.Recv.{Sendable}
use orbit_transfer.Sender
use orbit_transfer.Sender.{got_direct, Turn, Route, on_relay, on_direct, announcement, begin}
use orbit_transfer.Receiver
use orbit_transfer.Receiver.Shares.{share}
use orbit_transfer.Client.{send}
use orbit_transfer.Connect.{connect_sender}
use orbit_transfer.Connect.Greeting.{each_from, answers, Introduced, connect_sender-Introduced}
use orbit_transfer.Examples.Platforms.{counting}
use orbit_transfer.Examples.FountainRuns.{payload}
use orbit_transfer.Examples.TransportRuns.{halves, clear}
use orbit_transfer.Examples.RelayRuns.{laptop}
use orbit_transfer.Examples.SessionRuns.{sender, quiet}

-- Both relays and the direct link have room.
abbrev all_alive : Turn
all_alive = record quiet { alive = λ j. true; writer = record { is_alive = true; has_room = true } }

-- The direct link is there when the third turn begins.
abbrev two_alive : List Turn
two_alive =
    all_alive ∷ all_alive ∷ record all_alive { events = got_direct ∷ [] } ∷ replicate 5 all_alive

abbrev log : List (Route × OrbitMessage)
log = (Sender.run counting clear halves sender two_alive (begin counting clear halves sender)).0

abbrev expected : List (Route × OrbitMessage)
expected =
    (on_relay 0, symbol 7 0 (1 ∷ 2 ∷ []))
    ∷ (on_relay 0, symbol 7 1 (3 ∷ 0 ∷ []))
    ∷ (on_relay 1, symbol 7 2 (2 ∷ 2 ∷ []))
    ∷ (on_direct, symbol 7 3 (2 ∷ 2 ∷ []))
    ∷ (on_relay 0, symbol 7 4 (0 ∷ 0 ∷ []))
    ∷ (on_direct, symbol 7 5 (0 ∷ 0 ∷ []))
    ∷ (on_relay 1, symbol 7 6 (0 ∷ 0 ∷ []))
    ∷ (on_direct, symbol 7 7 (0 ∷ 0 ∷ []))
    ∷ []

pub symbol-Sendable :
    (esi a b : ℕ) → esi < 8 → a < 256 → b < 256 → Sendable (symbol 7 esi (a ∷ b ∷ []))
unfolding encode_parts le_bytes
symbol-Sendable esi a b small fits_a fits_b =
    ((omega arith, omega arith, (omega arith, (omega arith, tt))), tt, omega arith)

-- Both symbols of the second relay, and one of the direct link, come before the META.
abbrev arrived : List (Route × OrbitMessage)
arrived =
    (on_relay 1, symbol 7 2 (2 ∷ 2 ∷ []))
    ∷ (on_relay 1, symbol 7 6 (0 ∷ 0 ∷ []))
    ∷ (on_direct, symbol 7 3 (2 ∷ 2 ∷ []))
    ∷ (on_relay 0, announcement counting clear halves sender)
    ∷ (on_relay 0, symbol 7 0 (1 ∷ 2 ∷ []))
    ∷ (on_direct, symbol 7 5 (0 ∷ 0 ∷ []))
    ∷ (on_relay 0, symbol 7 1 (3 ∷ 0 ∷ []))
    ∷ (on_direct, symbol 7 7 (0 ∷ 0 ∷ []))
    ∷ (on_relay 0, symbol 7 4 (0 ∷ 0 ∷ []))
    ∷ []

-- The reads of the direct link: the first frame comes in two pieces.
abbrev pieces : List (List ℕ)
pieces =
    (3 ∷ 14 ∷ [])
    ∷ (0 ∷ 0 ∷ 0 ∷ 7 ∷ 0 ∷ 0 ∷ 0 ∷ 0 ∷ 0 ∷ 0 ∷ 0 ∷ 3 ∷ 0 ∷ 0 ∷ 0 ∷ 2 ∷ 2 ∷ [])
    ∷ encode (symbol 7 5 (0 ∷ 0 ∷ []))
    ∷ encode (symbol 7 7 (0 ∷ 0 ∷ []))
    ∷ []

abbrev on_link : List OrbitMessage
on_link = symbol 7 3 (2 ∷ 2 ∷ []) ∷ symbol 7 5 (0 ∷ 0 ∷ []) ∷ symbol 7 7 (0 ∷ 0 ∷ []) ∷ []

-- Every message is written as soon as it is queued.
steady : List OrbitMessage → List Action
steady [] = []
steady (m ∷ ms) = pushes m ∷ drains true ∷ steady ms

abbrev works : Route → List Action
works route = steady (share route expected)

-- A relay after the receiver's Hello.
abbrev registered : RelayCore
unfolding route route_hello hello_receiver
registered = (route new_relay (hello 7 role_receiver) laptop).0

abbrev secret : Option (List ℕ)
secret = some (5 ∷ [])

abbrev written : List (ℕ × WsOut)
written =
    each_from 2 0 (send (hello 7 role_sender))
    ++ (0, send (announcement counting clear halves sender)) ∷ []

-- The second of three relays is not reached.
connect_sender-Introduced_example :
    Introduced counting clear halves 3 7
      (97 ∷ [])
      payload
      2
      secret
      (answers (λ i. i == 0) (λ i. true))
      true
      (connect_sender counting clear halves 3 7
        (97 ∷ [])
        payload
        2
        secret
        (λ i. i == 0)
        (λ i. true)
        true)
connect_sender-Introduced_example =
    connect_sender-Introduced counting clear halves 3 7 (97 ∷ []) payload 2 secret (λ i. i == 0)
      (λ i. true) true

-- Three messages, of which the second is refused by the link.
abbrev stumbles : List Action
stumbles =
    pushes (symbol 7 0 [])
    ∷ pushes (symbol 7 1 [])
    ∷ drains true
    ∷ drains false
    ∷ pushes (symbol 7 2 [])
    ∷ leaves
    ∷ []

run-idle_example : InOrder (Pipeline.run stumbles idle).0 (Pipeline.run stumbles idle).1
run-idle_example = run-idle stumbles
