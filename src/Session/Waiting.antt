-- ===== src/Session/Waiting.antt =====
-- A receiver of crates/orbit-transport/src/session.rs that has lost its relays.
use orbit_transfer.Prelude.{
  ℕ, zero, suc, ◌≡◌, refl, ap, ap₂, subst, ◌∙◌, Bool, true, false, ◌&&◌, ◌||◌, List, [], ◌∷◌, ◌++◌,
  Option, none, some, replicate, map, All, if◌then◌else◌,
}
use orbit_transfer.Platform.{Platform}
use orbit_transfer.Crypto.{Primitives}
use orbit_transfer.Client
use orbit_transfer.Client.{Incoming, RecvResult, recv_item}
use orbit_transfer.Direct
use orbit_transfer.Direct.{Received}
use orbit_transfer.Session.{
  ReceiverSession, RecvPath, relay, relay_closed, relays_gone, more, failed, receive, has_decoder,
  run,
}
use orbit_transfer.Session.Readers.{read_relay, read_direct, Merged, AllMerged, no_task, task}
use orbit_transfer.Session.Readers.Lost.{Merged-All}
use orbit_transfer.Session.Receiving.{then_run, run-append}
use orbit_transfer.Session.Going.{has_meta, Sent, Going, run-Going}

module _ (p : Platform) (c : Primitives) where
  -- The channel of the relays is closed, and `select!` yields it each time.
  run-closed :
      (n : ℕ) (r : ReceiverSession p c)
      → run p c (replicate (suc n) relays_gone) r
        ≡ (if has_decoder p c r && r.has_direct then more r else failed)
  unfolding run receive
  run-closed n r = go n (has_decoder p c r && r.has_direct) refl
    where
      on :
          (b : Bool)
          → has_decoder p c r && r.has_direct ≡ b
          → receive p c r relays_gone ≡ (if b then more r else failed)
      on b e = ap (λ x. if x then more r else failed) e

      go :
          (n : ℕ) (b : Bool)
          → has_decoder p c r && r.has_direct ≡ b
          → run p c (replicate (suc n) relays_gone) r ≡ (if b then more r else failed)
      go n false e = rw (on false e, run) refl
      go zero true e = rw (on true e, run) refl
      go (suc n) true e = rw (on true e, run) (go n true e)

  read_relay-Sent : (items : List Incoming) → All (Sent p c) (read_relay p c items)
  unfolding read_relay
  read_relay-Sent [] = (tt, tt)
  read_relay-Sent (item ∷ rest) = go (recv_item item) (read_relay-Sent rest)
    where
      go :
          (got : Option RecvResult)
          → All (Sent p c) (read_relay p c rest)
          → All (Sent p c) (elim got [
            | some (Client.message m) ↦ relay m ∷ read_relay p c rest
            | some Client.closed ↦ relay_closed ∷ []
            | some (Client.refused e) ↦ relay_closed ∷ []
            | some Client.broken ↦ relay_closed ∷ []
            | some Client.panicked ↦ []
            | none ↦ read_relay p c rest
          ])
      go none ih = ih
      go (some (Client.message m)) ih = (tt, ih)
      go (some Client.closed) ih = (tt, tt)
      go (some (Client.refused e)) ih = (tt, tt)
      go (some Client.broken) ih = (tt, tt)
      go (some Client.panicked) ih = tt

  read_direct-Sent : (items : List Received) → All (Sent p c) (read_direct p c items)
  unfolding read_direct
  read_direct-Sent [] = tt
  read_direct-Sent (Direct.message m ∷ rest) = (tt, read_direct-Sent rest)
  read_direct-Sent (Direct.closed ∷ rest) = tt
  read_direct-Sent (Direct.refused e ∷ rest) = tt
  read_direct-Sent (Direct.panicked ∷ rest) = tt

  AllMerged-Sent :
      {A : Type 0} (task_of : A → List (RecvPath p c)) (tasks : List A)
      (events : List (RecvPath p c))
      → ((a : A) → All (Sent p c) (task_of a))
      → AllMerged (map task_of tasks) events
      → All (Sent p c) events
  AllMerged-Sent task_of [] events sent no_task = tt
  AllMerged-Sent task_of (a ∷ tasks) events sent (task {ys = ys} earlier m) =
      Merged-All p c (Sent p c) m (sent a) (AllMerged-Sent task_of tasks ys sent earlier)

  -- When the loop still goes on after all that the tasks of the relays and of any direct links sent,
  -- however it was interleaved, it ends with an error at the closed channel of the relays, unless the
  -- session has a decoder, from before or by a META of a relay, and listens for a direct link: then
  -- it goes on in the same state, however often `select!` yields that channel, also when no direct link
  -- was ever made.
  pub run-relays_gone :
      (r r' : ReceiverSession p c) (streams : List (List Incoming)) (links : List (List Received))
      (relays directs events : List (RecvPath p c)) (n : ℕ)
      → AllMerged (map (read_relay p c) streams) relays
      → AllMerged (map (read_direct p c) links) directs
      → Merged relays directs events
      → run p c events r ≡ more r'
      → run p c (events ++ replicate (suc n) relays_gone) r
        ≡ (if (has_decoder p c r || has_meta p c events) && r.has_direct then more r' else failed)
  unfolding then_run
  run-relays_gone r r' streams links relays directs events n of_relays of_directs whole goes_on =
      let sent =
        Merged-All p c (Sent p c) whole
          (AllMerged-Sent (read_relay p c) streams relays read_relay-Sent of_relays)
          (AllMerged-Sent (read_direct p c) links directs read_direct-Sent of_directs) in
      let (has, listens) =
        subst (Going p c (has_decoder p c r || has_meta p c events) r.has_direct) goes_on
          (run-Going p c events r sent) in
      run-append p c events (replicate (suc n) relays_gone) r
      ∙ ap (then_run p c (replicate (suc n) relays_gone)) goes_on
      ∙ run-closed n r'
      ∙ ap₂ (λ a b. if a && b then more r' else failed) has listens
