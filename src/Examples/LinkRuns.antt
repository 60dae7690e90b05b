-- ===== src/Examples/LinkRuns.antt =====
-- Direct links of crates/orbit-transport: who watches for them, and on which address they are made.
use orbit_transfer.Prelude.{
  ℕ, ◌+◌, ◌≡◌, ◌≤◌, refl, true, false, List, [], ◌∷◌, ◌++◌, Option, none, some, arith, length,
}
use orbit_transfer.Wire.{ready, direct}
use orbit_transfer.Client.{message, broken}
use orbit_transfer.Sender.Watch.{Observed, received, dialled, starting, observe_all}
use orbit_transfer.Sender.Watch.Links.{directs, bit, observe_all-directs}
use orbit_transfer.Direct.Peer.{
  Endpoint, quic, quic_prefix, strip_prefix, starts_with, endpoint, connect, advertise,
}
use orbit_transfer.Cli.{Receive, any_port, listen_addr, listen_addr-connect}

-- Both relays pass the address on; the first attempt fails, and the second task's succeeds.
abbrev seen : List Observed
seen =
    received 0 (message (direct 7 any_port))
    ∷ received 1 (message (direct 7 any_port))
    ∷ dialled false
    ∷ received 1 (message (direct 7 any_port))
    ∷ received 0 (message (direct 7 any_port))
    ∷ dialled true
    ∷ received 0 (message (ready 7))
    ∷ received 1 broken
    ∷ []

observe_all-directs_example :
    let w = observe_all starting seen in
    (directs w.events ≤ bit w.direct_up) × (length w.events ≤ 2 + 1)
observe_all-directs_example = observe_all-directs 2 seen (
  omega arith,
  (omega arith, (tt, (omega arith, (omega arith, (tt, (omega arith, (omega arith, tt))))))),
)

-- `orbit receive --quic`.
abbrev with_quic : Receive
with_quic = record { listen = none; quic_flag = true; no_p2p = false }

-- Every bind is given the port 9.
abbrev sockets : Endpoint → Option (List ℕ)
sockets e = some (57 ∷ [])

sockets_plain :
    (e : Endpoint) (local : List ℕ) → sockets e ≡ some local → starts_with local quic_prefix ≡ false
unfolding starts_with strip_prefix
sockets_plain e local h = let same : 57 ∷ [] ≡ local = cc in rw⁻¹ same refl

listen_addr-connect_example :
    (false ≡ false)
    × (connect (λ e. true) (quic_prefix ++ 57 ∷ []) ≡ some (quic (57 ∷ [])))
    × (true ≡ true)
unfolding listen_addr advertise endpoint
listen_addr-connect_example =
    listen_addr-connect with_quic sockets (λ e. true) (quic_prefix ++ 57 ∷ []) (quic (57 ∷ []))
      sockets_plain refl refl
