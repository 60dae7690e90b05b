-- ===== src/Receiver/Loop.antt =====
-- The loop of `ReceiverSession::run` of crates/orbit-transport/src/session.rs with and without its
-- counters.
use orbit_transfer.Prelude.{◌≡◌, refl, List, [], ◌∷◌}
use orbit_transfer.Platform.{Platform}
use orbit_transfer.Crypto.{Primitives}
use orbit_transfer.Session
use orbit_transfer.Session.{
  ReceiverSession, Step, more, completed, failed, panicked, RecvPath, relay, relay_closed,
  relays_gone, direct_message, direct_gone, receive,
}
use orbit_transfer.Receiver.{Counters, count, run_counted}

module _ (p : Platform) (c : Primitives) where
  -- Counting changes nothing of what the loop comes to.
  pub run_counted-run :
      (events : List (RecvPath p c)) (r : ReceiverSession p c) (k : Counters)
      → (run_counted p c events r k).0 ≡ Session.run p c events r
  unfolding run_counted Session.run
  run_counted-run [] r k = refl
  run_counted-run (event ∷ events) r k =
      go (λ r' k'. run_counted-run events r' k') (receive p c r event)
    where
      counted : Step p c → Step p c × Counters × List (RecvPath p c)
      counted (more r') = run_counted p c events r' (count p c event k)
      counted (completed r') = (completed r', count p c event k, events)
      counted failed = (failed, count p c event k, events)
      counted panicked = (panicked, count p c event k, events)

      uncounted : Step p c → Step p c
      uncounted (more r') = Session.run p c events r'
      uncounted (completed r') = completed r'
      uncounted failed = failed
      uncounted panicked = panicked

      go :
          ((r' : ReceiverSession p c) (k' : Counters)
            → (run_counted p c events r' k').0 ≡ Session.run p c events r')
          → (step : Step p c) → (counted step).0 ≡ uncounted step
      go later (more r') = later r' (count p c event k)
      go later (completed r') = refl
      go later failed = refl
      go later panicked = refl
