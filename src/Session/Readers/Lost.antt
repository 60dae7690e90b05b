-- ===== src/Session/Readers/Lost.antt =====
-- `ReceiverSession` of crates/orbit-transport/src/session.rs when its relays end.
use orbit_transfer.Prelude.{
  ◌+◌, ◌<◌, ◌≡◌, refl, List, [], ◌∷◌, Option, none, some, All, map, length, arith,
}
use orbit_transfer.Platform.{Platform}
use orbit_transfer.Crypto.{Primitives}
use orbit_transfer.Client
use orbit_transfer.Client.{Incoming, RecvResult, recv_item, recv_all}
use orbit_transfer.Direct
use orbit_transfer.Direct.{Received}
use orbit_transfer.Session.{ReceiverSession, RecvPath, relay, relay_closed, failed, run}
use orbit_transfer.Session.Readers.{
  read_relay, read_direct, Merged, no_item, first, second, AllMerged, no_task, task,
}
use orbit_transfer.Session.Readers.Closings.{IsMeta, Dull, ended, closings, run-closings}

-- `decode` does not panic on the frames of a stream.
abbrev pub NoPanic : List Incoming → Type 0
NoPanic [] = Unit {0}
NoPanic (item ∷ rest) = ¬ (recv_item item ≡ some Client.panicked) × NoPanic rest

module _ (p : Platform) (c : Primitives) where
  -- What is merged is what the tasks sent.
  Merged-closings :
      {xs ys zs : List (RecvPath p c)}
      → Merged xs ys zs
      → closings p c zs ≡ closings p c xs + closings p c ys
  unfolding closings
  Merged-closings no_item = refl
  Merged-closings (first m) = let rest = Merged-closings m in omega arith
  Merged-closings (second m) = let rest = Merged-closings m in omega arith

  pub Merged-All :
      (P : RecvPath p c → Type 0) {xs ys zs : List (RecvPath p c)}
      → Merged xs ys zs
      → All P xs
      → All P ys
      → All P zs
  Merged-All P no_item hx hy = tt
  Merged-All P (first m) (h, hx) hy = (h, Merged-All P m hx hy)
  Merged-All P (second m) hx (h, hy) = (h, Merged-All P m hx hy)

  -- The task of a relay says once that it ended.
  read_relay-closings :
      (items : List Incoming) → NoPanic items → closings p c (read_relay p c items) ≡ 1
  unfolding read_relay closings ended
  read_relay-closings [] fine = refl
  read_relay-closings (item ∷ rest) (fine, later) =
      go (recv_item item) fine (read_relay-closings rest later)
    where
      go :
          (got : Option RecvResult)
          → ¬ (got ≡ some Client.panicked)
          → closings p c (read_relay p c rest) ≡ 1
          → closings p c (elim got [
            | some (Client.message m) ↦ relay m ∷ read_relay p c rest
            | some Client.closed ↦ relay_closed ∷ []
            | some (Client.refused e) ↦ relay_closed ∷ []
            | some Client.broken ↦ relay_closed ∷ []
            | some Client.panicked ↦ []
            | none ↦ read_relay p c rest
          ])
            ≡ 1
      go none fine one = one
      go (some (Client.message m)) fine one = omega arith
      go (some Client.closed) fine one = refl
      go (some (Client.refused e)) fine one = refl
      go (some Client.broken) fine one = refl
      go (some Client.panicked) fine one = elim (fine refl) [ ]

  read_relay-Dull :
      (items : List Incoming)
      → All (λ m. ¬ IsMeta m) (recv_all items)
      → All (Dull p c) (read_relay p c items)
  unfolding read_relay recv_all
  read_relay-Dull [] dull = (tt, tt)
  read_relay-Dull (item ∷ rest) dull = go (recv_item item) dull (read_relay-Dull rest)
    where
      go :
          (got : Option RecvResult)
          → All
              (λ m. ¬ IsMeta m)
              (elim got [
                | some (Client.message m) ↦ m ∷ recv_all rest
                | some Client.closed ↦ []
                | some (Client.refused e) ↦ []
                | some Client.broken ↦ []
                | some Client.panicked ↦ []
                | none ↦ recv_all rest
              ])
          → (All (λ m. ¬ IsMeta m) (recv_all rest) → All (Dull p c) (read_relay p c rest))
          → All (Dull p c) (elim got [
            | some (Client.message m) ↦ relay m ∷ read_relay p c rest
            | some Client.closed ↦ relay_closed ∷ []
            | some (Client.refused e) ↦ relay_closed ∷ []
            | some Client.broken ↦ relay_closed ∷ []
            | some Client.panicked ↦ []
            | none ↦ read_relay p c rest
          ])
      go none dull ih = ih dull
      go (some (Client.message m)) (d, dull) ih = (d, ih dull)
      go (some Client.closed) dull ih = (tt, tt)
      go (some (Client.refused e)) dull ih = (tt, tt)
      go (some Client.broken) dull ih = (tt, tt)
      go (some Client.panicked) dull ih = tt

  -- A stream with no META that the receiver can read to its end.
  abbrev pub Mute : List Incoming → Type 0
  Mute items = NoPanic items × All (λ m. ¬ IsMeta m) (recv_all items)

  AllMerged-closings :
      (streams : List (List Incoming)) (events : List (RecvPath p c))
      → All Mute streams
      → AllMerged (map (read_relay p c) streams) events
      → (closings p c events ≡ length streams) × All (Dull p c) events
  unfolding closings
  AllMerged-closings [] events mute no_task = (refl, tt)
  AllMerged-closings (items ∷ streams) events ((fine, quiet), mute) (task {ys = ys} earlier m) =
      let (ends, dull) = AllMerged-closings streams ys mute earlier in
      let one = read_relay-closings items fine in
      let sum = Merged-closings m in
      (omega arith, Merged-All (Dull p c) m (read_relay-Dull items quiet) dull)

  read_direct-Dull : (items : List Received) → All (Dull p c) (read_direct p c items)
  unfolding read_direct
  read_direct-Dull [] = tt
  read_direct-Dull (Direct.message m ∷ rest) = (tt, read_direct-Dull rest)
  read_direct-Dull (Direct.closed ∷ rest) = tt
  read_direct-Dull (Direct.refused e ∷ rest) = tt
  read_direct-Dull (Direct.panicked ∷ rest) = tt

  -- A receiver to which no relay ever sends a META has ended with an error by the time all its relays
  -- have ended, however their items and those of a direct link interleave, and with or without such a
  -- link. The streams are those of all its relays, at least one, and no frame of them makes `decode`
  -- panic.
  pub run-read_relay :
      (r : ReceiverSession p c) (streams : List (List Incoming)) (links : List Received)
      (events all : List (RecvPath p c))
      → r.decoder ≡ none
      → r.relays_closed ≡ 0
      → 0 < r.n_relays
      → length streams ≡ r.n_relays
      → All Mute streams
      → AllMerged (map (read_relay p c) streams) events
      → Merged events (read_direct p c links) all
      → run p c all r ≡ failed
  run-read_relay r streams links events all e none_yet some_relay count mute relays whole =
      let (ends, dull) = AllMerged-closings streams events mute relays in
      let sum = Merged-closings whole in
      run-closings p c all (Merged-All (Dull p c) whole dull (read_direct-Dull links)) r
        (e, omega arith) (omega arith)
