-- ===== src/Receiver/Late.antt =====
-- `ReceiverSession::run` of crates/orbit-transport/src/session.rs when symbols overtake the META.
use orbit_transfer.Prelude.{
  ℕ, ◌≡◌, ◌<◌, refl, sym, ap, ap₂, subst, ◌∙◌, Bool, true, false, List, [], ◌∷◌, ◌++◌, none, some,
  map,
}
use orbit_transfer.Prelude.Le.{IsBytes}
use orbit_transfer.Prelude.Sorted.{contains}
use orbit_transfer.Platform.{Platform, DrawsInRange}
use orbit_transfer.Wire.{OrbitMessage}
use orbit_transfer.Encoder
use orbit_transfer.Crypto.{Primitives, Opens}
use orbit_transfer.Scheduler.{SchedulerFloat}
use orbit_transfer.Transfer.Lossless.{Encodes}
use orbit_transfer.Transfer.Complete.{inputs}
use orbit_transfer.Decoder
use orbit_transfer.Decoder.{FountainDecoder, reconstruct}
use orbit_transfer.Sender.{
  Route, on_relay, on_direct, SenderSession, message_of, sealed_block, announcement,
}
use orbit_transfer.Session
use orbit_transfer.Session.{
  ReceiverSession, Step, more, completed, failed, panicked, RecvPath, relay,
}
use orbit_transfer.Session.Receiving.{comes, SameStep, arrivals, run-overtaken}
use orbit_transfer.Receiver.Decoding.{arrives, Arrived, message_of-symbol}
use orbit_transfer.Receiver.Payload.{Fresh, Announced, Takes, Returns, run-payload, payload-Returns}
use orbit_transfer.Receiver.{run}

module _ (p : Platform) (in_range : DrawsInRange p) (c : Primitives) (opens : Opens c)
    (f : SchedulerFloat) (s : SenderSession p c f) (payload : List ℕ) (size : ℕ)
    (bytes : IsBytes payload) (made : Encoder.new p payload size ≡ some s.encoder) where
  arrives-comes :
      (route : Route) (m : OrbitMessage)
      → (is_direct : Bool) × (arrives p c (route, m) ≡ comes p c is_direct m)
  arrives-comes (on_relay j) m = (false, refl)
  arrives-comes on_direct m = (true, refl)

  -- What overtakes the META are symbols of the session.
  early_symbols :
      (early late : List (Route × OrbitMessage)) (esis : List ℕ)
      → Arrived p in_range c opens f s payload size bytes made esis (early ++ late)
      → (symbols : List (Bool × ℕ × List ℕ)) × (map (arrives p c) early
          ≡ arrivals p c s.session_id symbols)
  early_symbols [] late esis same = ([], refl)
  early_symbols ((route, m) ∷ early) late [] same = cc
  early_symbols ((route, m) ∷ early) late (esi ∷ esis) same =
      let head : some m ≡ message_of p c f s esi = cc in
      let tail : map (λ e. some e.1) (early ++ late) ≡ map (message_of p c f s) esis = cc in
      let (symbols, rest) = early_symbols early late esis tail in
      let (sy, encoded, is_symbol) = message_of-symbol p c f s esi m (sym head) in
      let (is_direct, way) = arrives-comes route m in
      (
        (is_direct, esi, sealed_block p c f s esi sy.block) ∷ symbols,
        ap₂ (◌∷◌) (way ∙ ap (comes p c is_direct) is_symbol) rest,
      )

  completed_same :
      (step : Step p c) (r' : ReceiverSession p c)
      → SameStep p c step (completed r')
      → (r'' : ReceiverSession p c) × (step ≡ completed r'')
        × (record r'' { pending = [] } ≡ record r' { pending = [] })
  completed_same (more r) r' h = elim h [ ]
  completed_same (completed r) r' h = (r, refl, h)
  completed_same failed r' h = elim h [ ]
  completed_same panicked r' h = elim h [ ]

  pub map_split :
      (xs ys : List (Route × OrbitMessage)) (zs : List (RecvPath p c))
      → map (arrives p c) (xs ++ ys) ++ zs ≡ map (arrives p c) xs ++ (map (arrives p c) ys ++ zs)
  map_split [] ys zs = refl
  map_split (x ∷ xs) ys zs = ap (λ l. arrives p c x ∷ l) (map_split xs ys zs)

  announced_late :
      (symbols : List (Bool × ℕ × List ℕ)) (later : List (RecvPath p c)) (r : ReceiverSession p c)
      → let start : ReceiverSession p c = record r { decoder = none; pending = [] } in
        SameStep p c
          (Session.run p c
            (arrivals p c s.session_id symbols ++ relay (announcement p c f s) ∷ later)
            start)
          (Session.run p c
            (relay (announcement p c f s) ∷ arrivals p c s.session_id symbols ++ later)
            start)
  unfolding announcement
  announced_late symbols later r =
      run-overtaken p c s.session_id symbols later s.session_id s.filename s.encoder.payload_len _ _
        s.encoder.checksum r

  -- The loop ends with the payload wherever the META comes among the symbols.
  late-payload :
      (r : ReceiverSession p c) (esis : List ℕ) (early late : List (Route × OrbitMessage))
      (rest : List (RecvPath p c))
      → Fresh p in_range c opens f s payload size bytes made r
      → Announced p in_range c opens f s payload size bytes made
      → Encodes p s.encoder esis
      → ((i : ℕ) → i < inputs p in_range payload size s.encoder bytes made → contains i esis ≡ true)
      → Arrived p in_range c opens f s payload size bytes made esis (early ++ late)
      → (r' : ReceiverSession p c) × (d : FountainDecoder p) × (Session.run p c
            (map (arrives p c) early
              ++ relay (announcement p c f s) ∷ (map (arrives p c) late ++ rest))
            r
          ≡ completed r')
        × (r'.decoder ≡ some d)
        × (reconstruct p d ≡ some (Decoder.ok payload))
        × (r'.session_id ≡ s.session_id)
        × (r'.n_relays ≡ r.n_relays)
  late-payload r esis early late rest fresh fits h covers same =
      let (r1, d, ended, complete, whole, session, relays) =
        run-payload p in_range c opens f s payload size bytes made r esis (early ++ late) rest fresh
          fits h covers same in
      let (symbols, are) = early_symbols early late esis same in
      let later = map (arrives p c) late ++ rest in
      let fresh_r : record r { decoder = none; pending = [] } ≡ r =
        ap₂ (λ dec wait. record r { decoder = dec; pending = wait }) (sym fresh.0) (sym fresh.1) in
      let over =
        subst
          (λ x.
            SameStep p c
              (Session.run p c
                (arrivals p c s.session_id symbols ++ relay (announcement p c f s) ∷ later) x)
              (Session.run p c
                (relay (announcement p c f s) ∷ arrivals p c s.session_id symbols ++ later) x))
          fresh_r (announced_late symbols later r) in
      let split : arrivals p c s.session_id symbols ++ later
          ≡ map (arrives p c) (early ++ late) ++ rest =
        ap (λ l. l ++ later) (sym are) ∙ sym (map_split early late rest) in
      let first : Session.run p c
            (relay (announcement p c f s) ∷ arrivals p c s.session_id symbols ++ later) r
          ≡ completed r1 =
        ap (λ l. Session.run p c (relay (announcement p c f s) ∷ l) r) split ∙ ended in
      let (r2, second, alike) = completed_same _ r1 (
        subst
          (SameStep p c (
            Session.run p c
              (arrivals p c s.session_id symbols ++ relay (announcement p c f s) ∷ later) r))
          first over) in
      (
        r2,
        d,
        ap (λ l. Session.run p c (l ++ relay (announcement p c f s) ∷ later) r) are ∙ second,
        ap (λ x. x.decoder) alike ∙ complete,
        whole,
        ap (λ x. x.session_id) alike ∙ session,
        ap (λ x. x.n_relays) alike ∙ relays,
      )

  -- A receiver that has received nothing, with the sender's secret and session, gets messages that the
  -- sender makes, among them those of every id below the `k + s + h` inputs, in any order, repeated or
  -- not, each from a relay or from the direct link, with the META anywhere among them, and then
  -- whatever else. Its `run` returns exactly the payload, after READY to every relay and a close of
  -- every relay, when each relay takes them, the numbers of the META fit in its fields, the cipher
  -- opens what it sealed, the listed symbols are encoded and the random draws are in range.
  pub run-Returns_late :
      (r : ReceiverSession p c) (esis : List ℕ) (early late : List (Route × OrbitMessage))
      (rest : List (RecvPath p c)) (takes takes_close : ℕ → Bool)
      → Fresh p in_range c opens f s payload size bytes made r
      → Announced p in_range c opens f s payload size bytes made
      → Encodes p s.encoder esis
      → ((i : ℕ) → i < inputs p in_range payload size s.encoder bytes made → contains i esis ≡ true)
      → Arrived p in_range c opens f s payload size bytes made esis (early ++ late)
      → Takes p in_range c opens f s payload size bytes made r takes
      → Takes p in_range c opens f s payload size bytes made r takes_close
      → Returns p in_range c opens f s payload size bytes made r (
          run p c r takes takes_close (
            map (arrives p c) early
            ++ relay (announcement p c f s) ∷ (map (arrives p c) late ++ rest)))
  run-Returns_late r esis early late rest takes takes_close fresh fits h covers same t t_close =
      let (r', d, ended, complete, whole, session, relays) =
        late-payload r esis early late rest fresh fits h covers same in
      payload-Returns p in_range c opens f s payload size bytes made r r' d takes takes_close _
        ended complete whole session relays t t_close
