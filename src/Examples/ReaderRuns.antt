-- ===== src/Examples/ReaderRuns.antt =====
-- A receiver of crates/orbit-transport/src/session.rs whose relays end, before the META and after it.
use orbit_transfer.Prelude.{
  ◌++◌, replicate, none, ◌≡◌, refl, sym, subst, ◌∙◌, List, [], ◌∷◌, some, map, All, arith,
}
use orbit_transfer.Wire.{OrbitMessage, symbol, encode}
use orbit_transfer.Client
use orbit_transfer.Client.{
  Incoming, binary_frame, other_frame, failure, message, recv_item, recv_all,
}
use orbit_transfer.Client.Recv.{Sendable, recv_item-send, recv_all-send}
use orbit_transfer.Direct
use orbit_transfer.Direct.{Received}
use orbit_transfer.Session
use orbit_transfer.Session.{
  RecvPath, relay, relay_closed, direct_message, failed, more, relays_gone, ReceiverSession,
  receive, has_decoder,
}
use orbit_transfer.Session.Readers.{
  read_relay, read_direct, no_item, first, second, AllMerged, no_task, task,
}
use orbit_transfer.Session.Readers.Closings.{IsMeta}
use orbit_transfer.Session.Waiting.{run-relays_gone}
use orbit_transfer.Examples.FountainRuns.{opened}
use orbit_transfer.Session.Readers.Lost.{Mute, run-read_relay}
use orbit_transfer.Examples.Platforms.{counting}
use orbit_transfer.Examples.TransportRuns.{clear}
use orbit_transfer.Examples.SessionRuns.{receiver}
use orbit_transfer.Examples.PathsRuns.{symbol-Sendable}

abbrev early : OrbitMessage
early = symbol 7 0 (1 ∷ 2 ∷ [])

-- Relay 0 carries a symbol and fails; relay 1 answers a ping and closes.
abbrev streams : List (List Incoming)
streams =
    (binary_frame (encode early) ∷ failure ∷ []) ∷ (other_frame ∷ Client.close_frame ∷ []) ∷ []

early-Sendable : Sendable early
early-Sendable = symbol-Sendable 0 1 2 (omega arith) (omega arith) (omega arith)

early_read : recv_item (binary_frame (encode early)) ≡ some (message early)
unfolding Client.send
early_read = recv_item-send early early-Sendable

abbrev links : List Received
links = Direct.message early ∷ Direct.closed ∷ []

abbrev events : List (RecvPath counting clear)
events = relay early ∷ relay_closed ∷ relay_closed ∷ []

abbrev all : List (RecvPath counting clear)
all = relay early ∷ relay_closed ∷ direct_message early ∷ relay_closed ∷ []

last_read : relay early ∷ read_relay counting clear (failure ∷ []) ≡ relay early ∷ relay_closed ∷ []
unfolding read_relay recv_item
last_read = refl

read_first :
    read_relay counting clear (binary_frame (encode early) ∷ failure ∷ [])
    ≡ relay early ∷ relay_closed ∷ []
unfolding read_relay
read_first =
    subst
      (λ got.
        (elim got [
          | some (message m) ↦ relay m ∷ read_relay counting clear (failure ∷ [])
          | some Client.closed ↦ relay_closed ∷ []
          | some (Client.refused e) ↦ relay_closed ∷ []
          | some Client.broken ↦ relay_closed ∷ []
          | some Client.panicked ↦ []
          | none ↦ read_relay counting clear (failure ∷ [])
        ])
        ≡ relay early ∷ relay_closed ∷ [])
      (sym early_read) last_read

merged : AllMerged (map (read_relay counting clear) streams) events
unfolding read_relay recv_item
merged =
    subst (λ l. AllMerged (l ∷ (relay_closed ∷ []) ∷ []) events) (sym read_first)
      (task (task no_task (first no_item)) (first (first (second no_item))))

first_all : recv_all (binary_frame (encode early) ∷ failure ∷ []) ≡ early ∷ []
unfolding Client.send recv_all recv_item
first_all = recv_all-send (early ∷ []) (failure ∷ []) (early-Sendable, tt)

streams-Mute : All (Mute counting clear) streams
unfolding recv_all recv_item
streams-Mute = (
  (
    (λ h. never (sym early_read ∙ h), (λ h. cc, tt)),
    subst (All (λ m. ¬ IsMeta m)) (sym first_all) (λ h. h, tt),
  ),
  (((λ h. cc, (λ h. cc, tt)), tt), tt),
)
  where
    never : some (message early) ≡ some Client.panicked → ⊥
    never h = cc

run-read_relay_example : Session.run counting clear all receiver ≡ failed
unfolding read_direct
run-read_relay_example =
    run-read_relay counting clear receiver streams links events all refl refl (omega arith) refl
      streams-Mute merged (first (first (second (first no_item))))

-- A receiver that listens for a direct link and has its META, and both of its relays end.
abbrev opened_receiver : ReceiverSession counting clear
opened_receiver = record receiver { decoder = some opened }

abbrev opened_lost : ReceiverSession counting clear
opened_lost = record opened_receiver { relays_closed = 2 }

abbrev opened_events : List (RecvPath counting clear)
opened_events = relay_closed ∷ relay_closed ∷ []

gone_merged :
    AllMerged (map (read_relay counting clear) ((failure ∷ []) ∷ (failure ∷ []) ∷ [])) opened_events
unfolding read_relay recv_item
gone_merged = task (task no_task (first no_item)) (first (second no_item))

still_going : Session.run counting clear opened_events opened_receiver ≡ more opened_lost
unfolding Session.run receive has_decoder
still_going = refl

run-relays_gone_example :
    Session.run counting clear (opened_events ++ replicate 3 relays_gone) opened_receiver
    ≡ more opened_lost
unfolding read_direct has_decoder
run-relays_gone_example =
    run-relays_gone counting clear opened_receiver opened_lost
      ((failure ∷ []) ∷ (failure ∷ []) ∷ []) ((Direct.closed ∷ []) ∷ [])
      (relay_closed ∷ relay_closed ∷ []) [] opened_events 2 gone_merged (task no_task no_item)
      (first (first no_item)) still_going
