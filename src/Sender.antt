-- ===== src/Sender.antt =====
-- crates/orbit-transport/src/session.rs: `SenderSession`, less `dispatch`, which is in Session.
--
-- The tasks that drain the queues, the clock and the relays' answers are the environment: a `Turn`
-- holds what one turn of the loop of `run` observes of them. Each observation of a flag is a field of
-- its own, since other tasks may run between two of them. The code's `elapsed` and `overhead_ratio`
-- are not modelled.
pub mod Counters
pub mod Emitted
pub mod Turns
pub mod Stops
pub mod Watch
use orbit_transfer.Prelude.{
  ℕ, zero, suc, ◌+◌, ◌%◌, ◌^◌, Bool, true, false, not, ◌&&◌, ◌||◌, List, [], ◌∷◌, ◌++◌, Option,
  none, some, if◌then◌else◌, length, ◌>>=◌,
}
use orbit_transfer.Wire.{OrbitMessage, meta, symbol}
use orbit_transfer.Platform.{Platform}
use orbit_transfer.Encoder.{FountainEncoder, encode_symbol}
use orbit_transfer.Crypto.{Primitives, SessionCipher, seal_symbol}
use orbit_transfer.Scheduler
use orbit_transfer.Scheduler.{SchedulerFloat, MultiPathScheduler, with_relays, pick}
use orbit_transfer.Session.{dispatch}
use orbit_transfer.Direct.{DirectWriter, try_send}

pub data SenderEvent : Type 0 where
  got_ready got_direct : SenderEvent

pub data SenderError : Type 0 where
  all_unreachable not_acknowledged : SenderError

-- What a turn observes: the events that wait, the paths that are alive before the symbol is made, at
-- `dispatch` and after it, the room in their queues, the direct link at `try_send` and after it, and
-- whether `STALL_TIMEOUT` has passed since the last send.
pub record Turn : Type 0 where
  pub events : List SenderEvent
  pub alive_first : ℕ → Bool
  pub alive : ℕ → Bool
  pub has_room : ℕ → Bool
  pub alive_then : ℕ → Bool
  pub writer : DirectWriter
  pub writer_alive_then : Bool
  pub stalled : Bool

-- The counters of `TransferStats`.
pub record TransferStats : Type 0 where
  pub bytes : ℕ
  pub symbols : ℕ
  pub via_direct : ℕ
  pub via_relay : ℕ

-- Where a symbol was queued.
pub data Route : Type 0 where
  on_relay : ℕ → Route
  on_direct : Route

unfoldable pub any_path_alive : ℕ → (ℕ → Bool) → Bool
any_path_alive zero alive = false
any_path_alive (suc n) alive = alive n || any_path_alive n alive

pub data Attempt : Type 0 where
  sent_on : ℕ → Attempt
  waited : Attempt
  failed : SenderError → Attempt

unfoldable pub dispatch_or_wait : ℕ → ℕ → Turn → Attempt
unfolding dispatch any_path_alive
dispatch_or_wait n first t = elim (dispatch n first t.alive t.has_room) [
  | some j ↦ sent_on j
  | none ↦
      if not (any_path_alive n t.alive_then)
      then failed all_unreachable
      else if t.stalled
      then failed not_acknowledged
      else waited
]

-- The events that wait: whether READY is among them, and whether there is a direct link afterwards.
unfoldable pub take_events : List SenderEvent → Bool → Bool → Bool × Bool
take_events [] finished has_direct = (finished, has_direct)
take_events (got_ready ∷ events) finished has_direct = take_events events true has_direct
take_events (got_direct ∷ events) finished has_direct = take_events events finished true

module _ (p : Platform) (c : Primitives) (f : SchedulerFloat) where
  pub record SenderSession : Type 0 where
    pub n_paths : ℕ
    pub encoder : FountainEncoder p
    pub cipher : Option SessionCipher
    pub session_id : ℕ
    pub filename : List ℕ

  -- The variables of the loop of `run`.
  pub record Loop : Type 0 where
    pub scheduler : MultiPathScheduler f
    pub has_direct : Bool
    pub esi : ℕ
    pub sent : ℕ
    pub via_direct : ℕ
    pub via_relay : ℕ

  -- The variables as the loop finds them first.
  unfoldable pub begin : SenderSession → Loop
  unfolding Scheduler.new with_relays
  begin s = record {
    scheduler = with_relays f s.n_paths (Scheduler.new f 1 1);
    has_direct = false;
    esi = 0;
    sent = 0;
    via_direct = 0;
    via_relay = 0;
  }

  -- What `run` returns when the loop ends.
  unfoldable pub stats : SenderSession → Loop → TransferStats
  stats s l = record {
    bytes = s.encoder.payload_len;
    symbols = l.sent;
    via_direct = l.via_direct;
    via_relay = l.via_relay;
  }

  -- What a turn comes to: READY was there, an error is returned, the symbol was queued, or the same
  -- symbol is tried again.
  pub data Turned : Type 0 where
    finished : Loop → Turned
    stopped : SenderError → Turned
    panicked : Turned
    emitted : Route → OrbitMessage → Loop → Turned
    again : Loop → Turned

  unfoldable pub sealed_block : SenderSession → ℕ → List ℕ → List ℕ
  sealed_block s esi block = elim s.cipher [
    | some cipher ↦ seal_symbol c cipher s.session_id esi block
    | none ↦ block
  ]

  -- The message of the symbol `esi`.
  unfoldable pub message_of : SenderSession → ℕ → Option OrbitMessage
  unfolding sealed_block
  message_of s esi = do
    sym ← encode_symbol p s.encoder esi
    some (symbol s.session_id esi (sealed_block s esi sym.block))

  -- The META that `connect` sends to the first relay; `as u32` wraps.
  unfoldable pub announcement : SenderSession → OrbitMessage
  announcement s =
      meta s.session_id s.filename s.encoder.payload_len (s.encoder.symbol_size % 2 ^ 32)
        (s.encoder.k % 2 ^ 32) s.encoder.checksum

  -- `sent += 1; esi += 1;`.
  unfoldable pub advance : Loop → Loop
  advance l = record l { sent = (l.sent + 1) % 2 ^ 64; esi = (l.esi + 1) % 2 ^ 32 }

  unfoldable pub try_relays : SenderSession → ℕ → Turn → OrbitMessage → Loop → Turned
  unfolding dispatch_or_wait advance
  try_relays s first t m l = elim (dispatch_or_wait s.n_paths first t) [
    | sent_on j ↦
        emitted (on_relay j) m (advance (record l { via_relay = (l.via_relay + 1) % 2 ^ 64 }))
    | waited ↦ again l
    | failed e ↦ stopped e
  ]

  -- A symbol that the scheduler gives to the direct link.
  unfoldable pub try_direct : SenderSession → Turn → OrbitMessage → Loop → Turned
  unfolding try_relays try_send advance
  try_direct s t m l =
      if l.has_direct
      then (if try_send t.writer
          then emitted on_direct m (advance (record l { via_direct = (l.via_direct + 1) % 2 ^ 64 }))
          else if t.writer_alive_then
          then try_relays s 0 t m l
          else try_relays s 0 t m (record l { has_direct = false }))
      else try_relays s 0 t m l

  unfoldable pub send_symbol : SenderSession → Turn → OrbitMessage → Loop → Turned
  unfolding try_relays try_direct
  send_symbol s t m l =
      let (choice, scheduler) = pick f l.esi l.scheduler in
      let l' = record l { scheduler = scheduler } in
      elim choice [ some i ↦ try_relays s i t m l' | none ↦ try_direct s t m l' ]

  unfoldable pub turn : SenderSession → Turn → Loop → Turned
  unfolding take_events any_path_alive message_of send_symbol
  turn s t l =
      let (is_ready, has_direct) = take_events t.events false l.has_direct in
      let l' = record l { has_direct = has_direct } in
      if is_ready
      then finished l'
      else if not has_direct && not (any_path_alive s.n_paths t.alive_first)
      then stopped all_unreachable
      else elim (message_of s l.esi) [ none ↦ panicked | some m ↦ send_symbol s t m l' ]

  -- The loop of `run` on the turns that it makes: what was queued, in order, and the last turn's
  -- outcome; `again` after all turns.
  unfoldable pub run : SenderSession → List Turn → Loop → List (Route × OrbitMessage) × Turned
  unfolding turn
  run s [] l = ([], again l)
  run s (t ∷ ts) l = elim (turn s t l) [
    | finished l' ↦ ([], finished l')
    | stopped e ↦ ([], stopped e)
    | panicked ↦ ([], panicked)
    | again l' ↦ run s ts l'
    | emitted route m l' ↦ let rest = run s ts l' in ((route, m) ∷ rest.0, rest.1)
  ]
