-- ===== src/Receiver/Decoding.antt =====
-- `ReceiverSession::run` of crates/orbit-transport/src/session.rs on the symbols of an encoder: it ends
-- with the payload.
use orbit_transfer.Prelude.{
  ℕ, ◌≡◌, refl, sym, ap, ap₂, subst, ◌∙◌, inl, inr, Bool, true, false, List, [], ◌∷◌, ◌++◌, Option,
  none, some, map, Bool-cases, >>=-eq-some, ◌||◌,
}
use orbit_transfer.Prelude.Le.{IsBytes}
use orbit_transfer.Prelude.Sorted.{contains}
use orbit_transfer.Platform.{Platform, DrawsInRange}
use orbit_transfer.Wire.{OrbitMessage, symbol}
use orbit_transfer.Encoder
use orbit_transfer.Encoder.{EncodedSymbol, FountainEncoder, encode_symbol}
use orbit_transfer.Decoder.{FountainDecoder, add_symbol, absorb, add_fresh, is_complete}
use orbit_transfer.Soliton.{get_neighbors}
use orbit_transfer.Crypto.{Primitives, Opens, SessionCipher, seal_symbol, open_symbol}
use orbit_transfer.Scheduler.{SchedulerFloat}
use orbit_transfer.Transfer.{feed}
use orbit_transfer.Transfer.Lossless.{Follows, add-Follows}
use orbit_transfer.Transfer.Complete.{encode_symbol-esi, add_symbol-same}
use orbit_transfer.Sender.{Route, on_relay, on_direct, SenderSession, message_of, sealed_block}
use orbit_transfer.Session.{
  ReceiverSession, Step, more, completed, failed, panicked, RecvPath, relay, direct_message, opened,
  decoded, give_plain, give, handle_symbol, receive, run,
}

-- How a message that was queued on a path arrives.
abbrev pub arrives : (p : Platform) (c : Primitives) → Route × OrbitMessage → RecvPath p c
arrives p c (on_relay j, m) = relay m
arrives p c (on_direct, m) = direct_message m

returned-is_complete :
    (p : Platform) (d d' : FountainDecoder p) (done : Bool)
    → ◌≡◌ {A = Option (FountainDecoder p × Bool)} (some (d, is_complete p d)) (some (d', done))
    → done ≡ is_complete p d'
returned-is_complete p d d' done e =
    let same : d ≡ d' = cc in
    let flag : is_complete p d ≡ done = cc in sym flag ∙ ap (is_complete p) same

add_fresh-is_complete :
    (p : Platform) (d : FountainDecoder p) (sy : EncodedSymbol) (d' : FountainDecoder p)
    (done : Bool)
    → add_fresh p d sy ≡ some (d', done)
    → done ≡ is_complete p d'
unfolding add_fresh
add_fresh-is_complete p d sy d' done e =
    let (drawn, found, e1) = >>=-eq-some (get_neighbors p d.sampler sy.esi) _ e in
    let (graph, absorbed, e2) = >>=-eq-some (absorb p d sy.block drawn.1) _ e1 in
    returned-is_complete p _ d' done e2

add_symbol-is_complete :
    (p : Platform) (d : FountainDecoder p) (sy : EncodedSymbol) (d' : FountainDecoder p)
    (done : Bool)
    → add_symbol p d sy ≡ some (d', done)
    → done ≡ is_complete p d'
unfolding add_symbol
add_symbol-is_complete p d sy d' done e =
    elim (Bool-cases (is_complete p d || contains sy.esi d.received_esis)) [
      | inl stale ↦ returned-is_complete p d d' done (rw stale at e)
      | inr fresh ↦
          let same : add_fresh p d sy ≡ some (d', done) = rw fresh at e in
          add_fresh-is_complete p d sy d' done same
    ]

-- A cipher that is the receiver's own undoes what the sender's did.
opened-sealed_block :
    (p : Platform) (c : Primitives) (f : SchedulerFloat) (s : SenderSession p c f)
    (r : ReceiverSession p c) (esi : ℕ) (block : List ℕ)
    → Opens c
    → r.cipher ≡ s.cipher
    → r.session_id ≡ s.session_id
    → opened p c r esi (sealed_block p c f s esi block) ≡ some block
unfolding opened sealed_block open_symbol seal_symbol
opened-sealed_block p c f s r esi block opens shared same =
    ap₂
      (λ cipher id.
        opened p c (record r { cipher = cipher; session_id = id }) esi
          (sealed_block p c f s esi block))
      shared same
    ∙ go s.cipher
  where
    go :
        (cipher : Option SessionCipher)
        → opened p c
            (record r { cipher = cipher; session_id = s.session_id })
            esi
            (sealed_block p c f (record s { cipher = cipher }) esi block)
          ≡ some block
    go none = refl
    go (some key) = opens key.key _ _ block

pub message_of-symbol :
    (p : Platform) (c : Primitives) (f : SchedulerFloat) (s : SenderSession p c f) (esi : ℕ)
    (m : OrbitMessage)
    → message_of p c f s esi ≡ some m
    → (sy : EncodedSymbol) × (encode_symbol p s.encoder esi ≡ some sy)
      × (m ≡ symbol s.session_id esi (sealed_block p c f s esi sy.block))
unfolding message_of
message_of-symbol p c f s esi m e =
    let (sy, found, e1) = >>=-eq-some (encode_symbol p s.encoder esi) _ e in (sy, found, cc)

-- A receiver with a decoder and the sender's key gives the decoder what the sender sealed.
receive-decoded :
    (p : Platform) (c : Primitives) (r : ReceiverSession p c) (d : FountainDecoder p)
    (route : Route) (id esi : ℕ) (sealed block : List ℕ)
    → opened p c r esi sealed ≡ some block
    → receive p c (record r { decoder = some d }) (arrives p c (route, symbol id esi sealed))
      ≡ decoded p c
          (record r { decoder = some d })
          (add_symbol p d (record { esi = esi; symbol_size = d.symbol_size; block = block }))
unfolding receive handle_symbol give give_plain opened
receive-decoded p c r d (on_relay j) id esi sealed block e =
    ap (give_plain p c (record r { decoder = some d }) d esi) e
receive-decoded p c r d on_direct id esi sealed block e =
    ap (give_plain p c (record r { decoder = some d }) d esi) e

module _ (p : Platform) (in_range : DrawsInRange p) (c : Primitives) (opens : Opens c)
    (f : SchedulerFloat) (s : SenderSession p c f) (payload : List ℕ) (size : ℕ)
    (bytes : IsBytes payload) (made : Encoder.new p payload size ≡ some s.encoder) where
  abbrev pub Follower : FountainDecoder p → Type 0
  Follower = Follows p in_range payload size s.encoder bytes made

  -- Arrivals that are the messages of these ids.
  abbrev pub Arrived : List ℕ → List (Route × OrbitMessage) → Type 0
  Arrived esis log = map (λ e. some e.1) log ≡ map (message_of p c f s) esis

  -- The step ends the loop with a complete decoder of the transfer.
  abbrev pub Completes : ReceiverSession p c → Step p c → Type 0
  Completes r step =
      (d : FountainDecoder p) × (step ≡ completed (record r { decoder = some d }))
      × Follower d
      × (is_complete p d ≡ true)

  -- The receiver has the sender's key and session.
  abbrev pub Joined : ReceiverSession p c → Type 0
  Joined r = (r.cipher ≡ s.cipher) × (r.session_id ≡ s.session_id)

  -- The next message: it ends the loop, or leaves a decoder that is not complete.
  abbrev Taken : ReceiverSession p c → ℕ → FountainDecoder p → Step p c → Type 0
  Taken r esi d step =
      (sy : EncodedSymbol) × (d1 : FountainDecoder p) × (now : Bool) × (encode_symbol p s.encoder
          esi
        ≡ some sy)
      × (add_symbol p d sy ≡ some (d1, now))
      × Follower d1
      × (now ≡ is_complete p d1)
      × (step ≡ decoded p c (record r { decoder = some d }) (some (d1, now)))

  receive-Taken :
      (esi : ℕ) (route : Route) (m : OrbitMessage) (r : ReceiverSession p c) (d : FountainDecoder p)
      → Joined r
      → some m ≡ message_of p c f s esi
      → Follower d
      → Taken r esi d (receive p c (record r { decoder = some d }) (arrives p c (route, m)))
  receive-Taken esi route m r d (shared, same) asked follows =
      let (sy, encoded, is_symbol) = message_of-symbol p c f s esi m (sym asked) in
      let (d1, now, added, follows1) =
        add-Follows p in_range payload size s.encoder bytes made d esi sy follows encoded in
      let unsealed = opened-sealed_block p c f s r esi sy.block opens shared same in
      let here = record r { decoder = some d } in
      (
        sy,
        d1,
        now,
        encoded,
        added,
        follows1,
        add_symbol-is_complete p d sy d1 now added,
        ap (λ t. receive p c here (arrives p c (route, t))) is_symbol
            ∙ receive-decoded p c r d route s.session_id esi (sealed_block p c f s esi sy.block)
                sy.block unsealed
            ∙ ap (decoded p c here) (
                add_symbol-same p d sy esi d.symbol_size
                  (encode_symbol-esi p s.encoder esi sy encoded)
                ∙ added),
      )

  -- Arrivals after which the decoder is complete end the loop, at the latest with the last one.
  pub run-Arrived :
      (esi : ℕ) (esis : List ℕ) (log : List (Route × OrbitMessage)) (rest : List (RecvPath p c))
      (r : ReceiverSession p c) (d d' : FountainDecoder p)
      → Joined r
      → Arrived (esi ∷ esis) log
      → Follower d
      → feed p s.encoder (esi ∷ esis) d ≡ some d'
      → is_complete p d' ≡ true
      → Completes r (run p c (map (arrives p c) log ++ rest) (record r { decoder = some d }))
  unfolding run feed decoded
  run-Arrived esi esis [] rest r d d' joined same follows fed full = cc
  run-Arrived esi esis ((route, m) ∷ log) rest r d d' joined same follows fed full =
      let head : some m ≡ message_of p c f s esi = cc in
      let tail : Arrived esis log = cc in
      let (sy, d1, now, encoded, added, follows1, flag, stepped) =
        receive-Taken esi route m r d joined head follows in
      let left : feed p s.encoder esis d1 ≡ some d' = rw (encoded, added, feed) at fed in
      subst (λ x. Completes r (after (map (arrives p c) log ++ rest) x)) (sym stepped)
        (go d1 (λ esi2 esis2. run-Arrived esi2 esis2 log rest r d1 d' joined) esis tail follows1 now
          flag left)
    where
      after : List (RecvPath p c) → Step p c → Step p c
      after events (more r') = run p c events r'
      after events (completed r') = completed r'
      after events failed = failed
      after events panicked = panicked

      go :
          (d1 : FountainDecoder p)
          → ((esi2 : ℕ) (esis2 : List ℕ)
              → Arrived (esi2 ∷ esis2) log
              → Follower d1
              → feed p s.encoder (esi2 ∷ esis2) d1 ≡ some d'
              → is_complete p d' ≡ true
              → Completes r
                  (run p c (map (arrives p c) log ++ rest) (record r { decoder = some d1 })))
          → (esis : List ℕ) → Arrived esis log
          → Follower d1
          → (now : Bool) → now ≡ is_complete p d1
          → feed p s.encoder esis d1 ≡ some d'
          → Completes r (
              after
                (map (arrives p c) log ++ rest)
                (decoded p c (record r { decoder = some d }) (some (d1, now))))
      go d1 later esis tail follows1 true flag left = (d1, refl, follows1, sym flag)
      go d1 later [] tail follows1 false flag left = let same : d1 ≡ d' = cc in absurd cc
      go d1 later (esi2 ∷ esis2) tail follows1 false flag left =
          later esi2 esis2 tail follows1 left full
