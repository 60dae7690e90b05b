-- ===== src/Connect.antt =====
-- crates/orbit-transport/src/session.rs: `SenderSession::connect` and `ReceiverSession::connect`.
--
-- The relays are told apart by their place in the list of URLs. Whether a relay is reached, and whether
-- it takes what is sent to it, are functions; a panic of the encoder is `panicked`. The tasks that
-- `connect` starts are in Sender/Watch, Pipeline and Client.
pub mod Greeting
pub mod Whole
use orbit_transfer.Prelude.{
  ℕ, zero, suc, ◌+◌, Bool, true, false, not, List, [], ◌∷◌, ◌++◌, Option, none, some, ◌==◌,
  if◌then◌else◌, ◌>>=◌,
}
use orbit_transfer.Wire.{OrbitMessage, hello, role_sender, role_receiver}
use orbit_transfer.Platform.{Platform}
use orbit_transfer.Encoder
use orbit_transfer.Crypto
use orbit_transfer.Crypto.{Primitives, SessionCipher}
use orbit_transfer.Scheduler.{SchedulerFloat}
use orbit_transfer.Relay.{WsOut}
use orbit_transfer.Client.{send}
use orbit_transfer.Direct.Peer.{Endpoint, advertise}
use orbit_transfer.Session.{ReceiverSession}
use orbit_transfer.Sender.{SenderSession, announcement}

-- What `connect` comes to.
pub data Opening (A : Type 0) : Type 0 where
  opened : A → Opening A
  failed : Opening A
  panicked : Opening A

-- `connect(url).await?` and the Hello, for each relay from relay `i` on: what is written, and whether
-- none failed.
unfoldable pub greet : ℕ → ℕ → (ℕ → Bool) → (ℕ → Bool) → WsOut → List (ℕ × WsOut) × Bool
greet zero i reached takes out = ([], true)
greet (suc left) i reached takes out =
    let rest = greet left (i + 1) reached takes out in
    if not (reached i)
    then ([], false)
    else if takes i
    then ((i, out) ∷ rest.0, rest.1)
    else ([], false)

-- `secret.map(|s| SessionCipher::new(&s))`.
unfoldable pub cipher_of : Primitives → Option (List ℕ) → Option SessionCipher
unfolding Crypto.new
cipher_of c none = none
cipher_of c (some secret) = some (Crypto.new c secret)

module _ (p : Platform) (c : Primitives) (f : SchedulerFloat) where
  -- What follows the greetings: the encoder, the META to the first relay, and the session.
  unfoldable pub announce :
      List (ℕ × WsOut)
      → Bool
      → Option (SenderSession p c f)
      → List (ℕ × WsOut) × Opening (SenderSession p c f)
  unfolding announcement send
  announce hellos takes_meta none = (hellos, panicked)
  announce hellos takes_meta (some s) =
      if takes_meta
      then (hellos ++ (0, send (announcement p c f s)) ∷ [], opened s)
      else (hellos, failed)

  unfoldable pub session_of :
      ℕ → ℕ → List ℕ → List ℕ → ℕ → Option (List ℕ) → Option (SenderSession p c f)
  unfolding cipher_of Encoder.new
  session_of n session_id filename payload symbol_size secret = do
    encoder ← Encoder.new p payload symbol_size
    some (record {
      n_paths = n;
      encoder = encoder;
      cipher = cipher_of c secret;
      session_id = session_id;
      filename = filename;
    })

  unfoldable pub connect_sender :
      ℕ
      → ℕ
      → List ℕ
      → List ℕ
      → ℕ
      → Option (List ℕ)
      → (ℕ → Bool)
      → (ℕ → Bool)
      → Bool
      → List (ℕ × WsOut) × Opening (SenderSession p c f)
  unfolding greet announce session_of send
  connect_sender n session_id filename payload symbol_size secret reached takes takes_meta =
      let (hellos, greeted) = greet n 0 reached takes (send (hello session_id role_sender)) in
      if n == 0
      then ([], failed)
      else if not greeted
      then (hellos, failed)
      else announce hellos takes_meta (session_of n session_id filename payload symbol_size secret)

module _ (p : Platform) (c : Primitives) where
  -- `Ok(Self { .. })`.
  unfoldable pub receiver_of :
      ℕ → ℕ → Option (List ℕ × Endpoint) → Option (List ℕ) → ReceiverSession p c
  unfolding cipher_of
  receiver_of n session_id listener secret = record {
    n_relays = n;
    relays_closed = 0;
    has_direct = elim listener [ none ↦ false | some l ↦ true ];
    cipher = cipher_of c secret;
    decoder = none;
    pending = [];
    session_id = session_id;
    filename = none;
  }

  -- The session of the receiver, and the direct address that it advertises.
  unfoldable pub connect_receiver :
      ℕ
      → ℕ
      → Option (List ℕ)
      → Option (List ℕ)
      → (ℕ → Bool)
      → (ℕ → Bool)
      → (Endpoint → Option (List ℕ))
      → List (ℕ × WsOut) × Opening (ReceiverSession p c × Option (List ℕ × Endpoint))
  unfolding greet receiver_of advertise send
  connect_receiver n session_id listen_addr secret reached takes sockets =
      let (hellos, greeted) = greet n 0 reached takes (send (hello session_id role_receiver)) in
      let listener = advertise sockets listen_addr in
      if n == 0
      then ([], failed)
      else if not greeted
      then (hellos, failed)
      else (hellos, opened (receiver_of n session_id listener secret, listener))
