-- ===== src/Connect/Whole.antt =====
-- A whole transfer of crates/orbit-transport/src/session.rs, from the two `connect` on.
use orbit_transfer.Prelude.{ℕ, ◌≡◌, refl, false, List, ◌++◌, Option}
use orbit_transfer.Prelude.Le.{IsBytes}
use orbit_transfer.Platform.{Platform, DrawsInRange}
use orbit_transfer.Wire.{hello, ready, role_receiver}
use orbit_transfer.Crypto.{Primitives, Opens}
use orbit_transfer.Scheduler.{SchedulerFloat}
use orbit_transfer.Relay.{RelayCore, Link, entry, drain_buffer, hello_receiver, route_hello, route}
use orbit_transfer.Relay.Carry.{Listens}
use orbit_transfer.Relay.Delivery.{inserted}
use orbit_transfer.Client.{send, send_close}
use orbit_transfer.Sender
use orbit_transfer.Receiver.{Counters, Result, returned}
use orbit_transfer.Receiver.Payload.{each}

-- The session is not known at a relay, or its receiver has not said READY there.
abbrev pub Waits : RelayCore → ℕ → Type 0
Waits core id = (entry core.rooms id).receiver_done ≡ false

-- A receiver's Hello registers it.
pub route_hello-Listens :
    (core : RelayCore) (id : ℕ) (rx : Link)
    → Waits core id
    → Listens (route core (hello id role_receiver) rx).0 id rx
unfolding route route_hello hello_receiver drain_buffer
route_hello-Listens core id rx waits = (_, inserted core id _, refl, waits)

module _ (p : Platform) (in_range : DrawsInRange p) (c : Primitives) (opens : Opens c)
    (f : SchedulerFloat) (n n_relays session_id : ℕ) (filename payload : List ℕ) (size : ℕ)
    (secret listen_addr : Option (List ℕ)) (bytes : IsBytes payload) where
  -- `run` of the receiver returns the payload, after READY and a close to each of its relays.
  abbrev pub Recovered : Result p c → Type 0
  Recovered result =
      (k : Counters) × (still_open : ℕ) × (result
        ≡ returned payload k (each n_relays (send (ready session_id)) ++ each n_relays send_close)
            still_open)
