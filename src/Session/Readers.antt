-- ===== src/Session/Readers.antt =====
-- The tasks of `ReceiverSession::connect` in crates/orbit-transport/src/session.rs that read from the
-- relays and from direct links. Each sends what it reads on a channel that `select!` reads; the
-- channel of the relays is closed when all its tasks have ended. A task that panics ends.
pub mod Closings
pub mod Lost
use orbit_transfer.Prelude.{ℕ, List, [], ◌∷◌, some, none}
use orbit_transfer.Platform.{Platform}
use orbit_transfer.Crypto.{Primitives}
use orbit_transfer.Client.{
  Incoming, RecvResult, message, closed, refused, broken, panicked, recv_item,
}
use orbit_transfer.Direct
use orbit_transfer.Direct.{Received}
use orbit_transfer.Session.{RecvPath, relay, relay_closed, direct_message}

module _ (p : Platform) (c : Primitives) where
  -- The task of a relay: an end or an error is sent once, and is the last that is sent.
  unfoldable pub read_relay : List Incoming → List (RecvPath p c)
  unfolding recv_item
  read_relay [] = relay_closed ∷ []
  read_relay (item ∷ rest) =
      let more = read_relay rest in
      elim (recv_item item) [
        | some (message m) ↦ relay m ∷ more
        | some closed ↦ relay_closed ∷ []
        | some (refused e) ↦ relay_closed ∷ []
        | some broken ↦ relay_closed ∷ []
        | some panicked ↦ []
        | none ↦ more
      ]

  -- The task of a direct link, on what the calls of `recv` return: it ends without a word.
  unfoldable pub read_direct : List Received → List (RecvPath p c)
  read_direct [] = []
  read_direct (Direct.message m ∷ rest) = direct_message m ∷ read_direct rest
  read_direct (Direct.closed ∷ rest) = []
  read_direct (Direct.refused e ∷ rest) = []
  read_direct (Direct.panicked ∷ rest) = []

-- The items of two tasks on one channel: each task's in their order.
pub data Merged {ℓ} {A : Type ℓ} : List A → List A → List A → Type ℓ where
  no_item : Merged [] [] []
  first : {x : A} {xs ys zs : List A} → Merged xs ys zs → Merged (x ∷ xs) ys (x ∷ zs)
  second : {y : A} {xs ys zs : List A} → Merged xs ys zs → Merged xs (y ∷ ys) (y ∷ zs)

-- The items of any number of tasks.
pub data AllMerged {ℓ} {A : Type ℓ} : List (List A) → List A → Type ℓ where
  no_task : AllMerged [] []
  task :
      {xs ys zs : List A} {tasks : List (List A)}
      → AllMerged tasks ys
      → Merged xs ys zs
      → AllMerged (xs ∷ tasks) zs
