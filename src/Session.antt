-- ===== src/Session.antt =====
-- crates/orbit-transport/src/session.rs: how the sender chooses a path for a symbol, and what the
-- receiver does with the messages that reach it.
--
-- The sockets, the queues and the clock are not modelled: `dispatch` is told which paths are alive
-- and which queues have room, and the receiver is told what its `select!` yields. A panic of the
-- decoder is `panicked`.
pub mod Dispatch
pub mod Receiving
pub mod Going
pub mod Waiting
pub mod Readers
use orbit_transfer.Prelude.{
  ℕ, zero, suc, ◌+◌, ◌%◌, Bool, true, false, ◌&&◌, ◌||◌, List, [], ◌∷◌, ◌++◌, Option, none, some,
  ◌==◌, if◌then◌else◌, length,
}
use orbit_transfer.Wire.{OrbitMessage, hello, meta, symbol, done, ready, direct}
use orbit_transfer.Platform.{Platform}
use orbit_transfer.Encoder.{EncodedSymbol}
use orbit_transfer.Decoder
use orbit_transfer.Decoder.{FountainDecoder, add_symbol}
use orbit_transfer.Crypto.{Primitives, SessionCipher, open_symbol}

-- The paths of `dispatch`, tried from `first + offset` on: the one that takes the symbol.
unfoldable pub dispatch_from : ℕ → ℕ → ℕ → ℕ → (ℕ → Bool) → (ℕ → Bool) → Option ℕ
dispatch_from zero offset first n alive has_room = none
dispatch_from (suc left) offset first n alive has_room =
    let j = (first + offset) % n in
    let rest = dispatch_from left (offset + 1) first n alive has_room in
    if alive j && has_room j then some j else rest

unfoldable pub dispatch : ℕ → ℕ → (ℕ → Bool) → (ℕ → Bool) → Option ℕ
unfolding dispatch_from
dispatch n first alive has_room = dispatch_from n 0 first n alive has_room

module _ (p : Platform) (c : Primitives) where
  pub record ReceiverSession : Type 0 where
    pub n_relays : ℕ
    pub relays_closed : ℕ
    pub has_direct : Bool
    pub cipher : Option SessionCipher
    pub decoder : Option (FountainDecoder p)
    pub pending : List (ℕ × List ℕ)
    pub session_id : ℕ
    pub filename : Option (List ℕ)

  -- What a step of the receiver comes to.
  pub data Step : Type 0 where
    more : ReceiverSession → Step
    completed : ReceiverSession → Step
    failed : Step
    panicked : Step

  unfoldable pub opened : ReceiverSession → ℕ → List ℕ → Option (List ℕ)
  opened r esi sealed = elim r.cipher [
    | some cipher ↦ open_symbol c cipher r.session_id esi sealed
    | none ↦ some sealed
  ]

  -- What `decoder.add_symbol` returned.
  unfoldable pub decoded : ReceiverSession → Option (FountainDecoder p × Bool) → Step
  decoded r none = panicked
  decoded r (some (d, true)) = completed (record r { decoder = some d })
  decoded r (some (d, false)) = more (record r { decoder = some d })

  unfoldable pub give_plain : ReceiverSession → FountainDecoder p → ℕ → Option (List ℕ) → Step
  unfolding decoded
  give_plain r d esi none = failed
  give_plain r d esi (some plain) =
      decoded r (add_symbol p d (record { esi = esi; symbol_size = d.symbol_size; block = plain }))

  unfoldable pub give : ReceiverSession → FountainDecoder p → ℕ → List ℕ → Step
  unfolding opened give_plain
  give r d esi sealed = give_plain r d esi (opened r esi sealed)

  unfoldable pub handle_symbol : ReceiverSession → ℕ → List ℕ → Step
  unfolding give
  handle_symbol r esi sealed = elim r.decoder [
    | none ↦ more (record r { pending = r.pending ++ (esi, sealed) ∷ [] })
    | some d ↦ give r d esi sealed
  ]

  -- `while let Some(..) = self.pending.pop_front()`.
  unfoldable pub drain_pending : List (ℕ × List ℕ) → ReceiverSession → Step
  unfolding handle_symbol
  drain_pending [] r = more (record r { pending = [] })
  drain_pending ((esi, sealed) ∷ rest) r =
      elim (handle_symbol (record r { pending = rest }) esi sealed) [
        | more r' ↦ drain_pending rest r'
        | completed r' ↦ completed r'
        | failed ↦ failed
        | panicked ↦ panicked
      ]

  -- What `select!` yields: a relay's message, end or error, the end of all relays, and a message
  -- or the end of the direct channel.
  pub data RecvPath : Type 0 where
    relay : OrbitMessage → RecvPath
    relay_closed : RecvPath
    relays_gone : RecvPath
    direct_message : OrbitMessage → RecvPath
    direct_gone : RecvPath

  -- The first META opens the decoder and what waited for it is decoded.
  unfoldable pub handle_meta : ReceiverSession → List ℕ → ℕ → ℕ → ℕ → ℕ → Step
  unfolding drain_pending
  handle_meta r filename size symbol_size k checksum = elim r.decoder [
    | some d ↦ more r
    | none ↦ elim (Decoder.new p size symbol_size k checksum) [
      | none ↦ panicked
      | some d ↦ drain_pending r.pending (record r { filename = some filename; decoder = some d })
    ]
  ]

  unfoldable pub has_decoder : ReceiverSession → Bool
  has_decoder r = elim r.decoder [ some d ↦ true | none ↦ false ]

  -- One turn of the loop of `run`, less the statistics.
  unfoldable pub receive : ReceiverSession → RecvPath → Step
  unfolding handle_symbol handle_meta has_decoder
  receive r (relay (meta id filename size symbol_size k checksum)) =
      handle_meta r filename size symbol_size k checksum
  receive r (relay (symbol id esi sealed)) = handle_symbol r esi sealed
  receive r (relay (done id)) = failed
  receive r (relay (hello id role)) = more r
  receive r (relay (ready id)) = more r
  receive r (relay (direct id addr)) = more r
  receive r relay_closed =
      let closed = record r { relays_closed = r.relays_closed + 1 } in
      if has_decoder r
      then more closed
      else if closed.relays_closed == r.n_relays
      then failed
      else more closed
  receive r relays_gone = if has_decoder r && r.has_direct then more r else failed
  receive r (direct_message (symbol id esi sealed)) = handle_symbol r esi sealed
  receive r (direct_message (meta id filename size symbol_size k checksum)) = more r
  receive r (direct_message (done id)) = more r
  receive r (direct_message (hello id role)) = more r
  receive r (direct_message (ready id)) = more r
  receive r (direct_message (direct id addr)) = more r
  receive r direct_gone = more (record r { has_direct = false })

  -- The loop of `run`, on what arrives.
  unfoldable pub run : List RecvPath → ReceiverSession → Step
  unfolding receive
  run [] r = more r
  run (event ∷ events) r = elim (receive r event) [
    | more r' ↦ run events r'
    | completed r' ↦ completed r'
    | failed ↦ failed
    | panicked ↦ panicked
  ]
