-- ===== src/Connect/Greeting.antt =====
-- What `connect` writes before it returns, and what it returns.
use orbit_transfer.Prelude.{
  ℕ, zero, suc, ◌+◌, ◌<◌, ◌≤◌, ◌&&◌, ◌⊎◌, leb, leb→le, ◌≡◌, refl, sym, ap, subst, Bool, true, false,
  not, List, [], ◌∷◌, ◌++◌, Option, none, some, ◌==◌, if◌then◌else◌, map, arith, inl, inr,
  Bool-cases, >>=-eq-some, ◌>>=◌,
}
use orbit_transfer.Wire.{hello, role_sender, role_receiver}
use orbit_transfer.Platform.{Platform}
use orbit_transfer.Encoder
use orbit_transfer.Encoder.{FountainEncoder}
use orbit_transfer.Crypto.{Primitives}
use orbit_transfer.Scheduler.{SchedulerFloat}
use orbit_transfer.Relay.{WsOut}
use orbit_transfer.Client.{send}
use orbit_transfer.Direct.Peer.{Endpoint, advertise}
use orbit_transfer.Session.{ReceiverSession}
use orbit_transfer.Sender.{SenderSession, announcement}
use orbit_transfer.Transfer.Complete.{ids_from}
use orbit_transfer.Connect.{
  Opening, opened, failed, panicked, greet, cipher_of, announce, session_of, connect_sender,
  receiver_of, connect_receiver,
}

-- The same for each of `n` relays from relay `i` on.
abbrev pub each_from : ℕ → ℕ → WsOut → List (ℕ × WsOut)
each_from n i out = map (λ j. (j, out)) (ids_from n i)

-- Relay `i` is reached and takes its Hello.
abbrev pub answers : (ℕ → Bool) → (ℕ → Bool) → ℕ → Bool
answers reached takes i = reached i && takes i

-- The relays from `i` on, `m` of them, are reached and take their Hello.
abbrev pub Answer : (ℕ → Bool) → ℕ → ℕ → Type 0
Answer answer m i = (j : ℕ) → i ≤ j → j < i + m → answer j ≡ true

-- All were greeted when all answer; otherwise those were before the first that does not.
abbrev Greeted : (ℕ → Bool) → ℕ → ℕ → WsOut → List (ℕ × WsOut) × Bool → Type 0
Greeted answer n i out (written, true) = Answer answer n i × (written ≡ each_from n i out)
Greeted answer n i out (written, false) =
    (m : ℕ) × (m < n) × Answer answer m i × (answer (i + m) ≡ false) × (written ≡ each_from m i out)

Answer-suc :
    (answer : ℕ → Bool) (m i : ℕ)
    → answer i ≡ true
    → Answer answer m (i + 1)
    → Answer answer (suc m) i
Answer-suc answer m i here later j low high = elim (Bool-cases (leb j i)) [
  | inl at ↦
      let same : i ≡ j = omega (arith, leb→le j i at) in subst (λ x. answer x ≡ true) same here
  | inr after ↦ later j (ground arith) (omega arith)
]

greet-Greeted :
    (n i : ℕ) (reached takes : ℕ → Bool) (out : WsOut)
    → Greeted (answers reached takes) n i out (greet n i reached takes out)
unfolding greet ids_from
greet-Greeted zero i reached takes out = ((λ j low high. absurd (omega arith)), refl)
greet-Greeted (suc n) i reached takes out = elim (Bool-cases (reached i)) [
  | inr unreached ↦
      let step : greet (suc n) i reached takes out ≡ ([], false) = rw unreached refl in
      subst (Greeted (answers reached takes) (suc n) i out) (sym step)
        (none_greeted n i (answers reached takes) out (ground arith))
  | inl there ↦ elim (Bool-cases (takes i)) [
    | inr refuses ↦
        let step : greet (suc n) i reached takes out ≡ ([], false) = rw (there, refuses) refl in
        subst (Greeted (answers reached takes) (suc n) i out) (sym step)
          (none_greeted n i (answers reached takes) out (ground arith))
    | inl took ↦
        let later = greet n (i + 1) reached takes out in
        let step : greet (suc n) i reached takes out ≡ ((i, out) ∷ later.0, later.1) =
          rw (there, took) refl in
        subst (Greeted (answers reached takes) (suc n) i out) (sym step)
          (go (ground arith) later (greet-Greeted n (i + 1) reached takes out))
  ]
]
  where
    none_greeted :
        (n i : ℕ) (answer : ℕ → Bool) (out : WsOut)
        → answer i ≡ false
        → Greeted answer (suc n) i out ([], false)
    none_greeted n i answer out denied =
        let same : i ≡ i + 0 = omega arith in
        (
          0,
          omega arith,
          (λ j low high. absurd (omega arith)),
          subst (λ x. answer x ≡ false) same denied,
          refl,
        )

    go :
        answers reached takes i ≡ true
        → (r : List (ℕ × WsOut) × Bool) → Greeted (answers reached takes) n (i + 1) out r
        → Greeted (answers reached takes) (suc n) i out ((i, out) ∷ r.0, r.1)
    go here (written, true) (all, g) =
        (Answer-suc (answers reached takes) n i here all, ap (λ l. (i, out) ∷ l) g)
    go here (written, false) (m, lt, before, denied, g) =
        let same : (i + 1) + m ≡ i + suc m = omega arith in
        (
          suc m,
          omega arith,
          Answer-suc (answers reached takes) m i here before,
          subst (λ x. answers reached takes x ≡ false) same denied,
          ap (λ l. (i, out) ∷ l) g,
        )

module _ (p : Platform) (c : Primitives) (f : SchedulerFloat) (n session_id : ℕ)
    (filename payload : List ℕ) (symbol_size : ℕ) (secret : Option (List ℕ)) where
  abbrev greeting : WsOut
  greeting = send (hello session_id role_sender)

  -- The session that was asked for.
  abbrev pub Asked : SenderSession p c f → Type 0
  Asked s =
      (Encoder.new p payload symbol_size ≡ some s.encoder)
      × (s.n_paths ≡ n)
      × (s.cipher ≡ cipher_of c secret)
      × (s.session_id ≡ session_id)
      × (s.filename ≡ filename)

  -- Why it failed after `m` greetings: there is no relay, or the next does not answer, or the first
  -- does not take the META.
  abbrev pub Refused : (ℕ → Bool) → Bool → ℕ → Type 0
  Refused answer takes_meta m =
      (n ≡ 0) ⊎ (((m < n) × (answer m ≡ false)) ⊎ ((0 < n) × (m ≡ n) × (takes_meta ≡ false)))

  -- What is written and returned.
  abbrev pub Introduced :
      (ℕ → Bool) → Bool → List (ℕ × WsOut) × Opening (SenderSession p c f) → Type 0
  Introduced answer takes_meta (written, opened s) =
      (0 < n)
      × Answer answer n 0
      × (takes_meta ≡ true)
      × Asked s
      × (written ≡ each_from n 0 greeting ++ (0, send (announcement p c f s)) ∷ [])
  Introduced answer takes_meta (written, failed) =
      (m : ℕ) × (m < suc n)
      × Answer answer m 0
      × Refused answer takes_meta m
      × (written ≡ each_from m 0 greeting)
  Introduced answer takes_meta (written, panicked) =
      (Encoder.new p payload symbol_size ≡ none)
      × Answer answer n 0
      × (written ≡ each_from n 0 greeting)

  session_of-Asked :
      (s : SenderSession p c f)
      → session_of p c f n session_id filename payload symbol_size secret ≡ some s
      → Asked s
  unfolding session_of
  session_of-Asked s e =
      let (encoder, made, e1) = >>=-eq-some (Encoder.new p payload symbol_size) _ e in
      let same = ap (λ r. elim r [ none ↦ s | some x ↦ x ]) e1 in
      subst Asked same (made, refl, refl, refl, refl)

  session_of-none :
      session_of p c f n session_id filename payload symbol_size secret ≡ none
      → Encoder.new p payload symbol_size ≡ none
  unfolding session_of
  session_of-none e = go (Encoder.new p payload symbol_size) e
    where
      built : FountainEncoder p → SenderSession p c f
      built encoder = record {
        n_paths = n;
        encoder = encoder;
        cipher = cipher_of c secret;
        session_id = session_id;
        filename = filename;
      }

      go :
          (r : Option (FountainEncoder p))
          → (r >>= λ encoder. some (built encoder)) ≡ none
          → r ≡ none
      go none h = refl
      go (some encoder) h = cc

  announce-Introduced :
      (answer : ℕ → Bool) (hellos : List (ℕ × WsOut)) (takes_meta : Bool)
      → 0 < n
      → Answer answer n 0
      → hellos ≡ each_from n 0 greeting
      → Introduced answer takes_meta (
          announce p c f hellos takes_meta
            (session_of p c f n session_id filename payload symbol_size secret))
  unfolding announce
  announce-Introduced answer hellos takes_meta pos answered all =
      go takes_meta (session_of p c f n session_id filename payload symbol_size secret)
        session_of-Asked session_of-none
    where
      go :
          (b : Bool) (r : Option (SenderSession p c f))
          → ((s : SenderSession p c f) → r ≡ some s → Asked s)
          → (r ≡ none → Encoder.new p payload symbol_size ≡ none)
          → Introduced answer b (announce p c f hellos b r)
      go b none asked panics = (panics refl, answered, all)
      go true (some s) asked panics = (
        pos,
        answered,
        refl,
        asked s refl,
        ap (λ l. l ++ (0, send (announcement p c f s)) ∷ []) all,
      )
      go false (some s) asked panics = (n, omega arith, answered, inr (inr (pos, refl, refl)), all)

  -- `SenderSession::connect` greets the relays in their order, each once, and ends with an error at
  -- the first that is not reached or does not take its Hello, having greeted those before it. When
  -- every relay is reached and takes its Hello, the META is written to the first relay only, last of
  -- all, and the session is the one that was asked for; when the first relay does not take the META
  -- it ends with an error. Without a relay nothing is written. It fails for no other reason, and panics
  -- only where the encoder does.
  pub connect_sender-Introduced :
      (reached takes : ℕ → Bool) (takes_meta : Bool)
      → Introduced (answers reached takes) takes_meta (
          connect_sender p c f n session_id filename payload symbol_size secret reached takes
            takes_meta)
  unfolding connect_sender ids_from
  connect_sender-Introduced reached takes takes_meta =
      go (n == 0) (greet n 0 reached takes greeting) (λ none_. ground arith) (λ some_. ground arith)
        (greet-Greeted n 0 reached takes greeting)
    where
      go :
          (b : Bool) (r : List (ℕ × WsOut) × Bool)
          → (b ≡ true → n ≡ 0)
          → (b ≡ false → 0 < n)
          → Greeted (answers reached takes) n 0 greeting r
          → Introduced (answers reached takes) takes_meta (
              if b
              then ([], failed)
              else if not r.1
              then (r.0, failed)
              else announce p c f r.0 takes_meta
                  (session_of p c f n session_id filename payload symbol_size secret))
      go true r is_zero pos g =
          (0, omega arith, (λ j low high. absurd (omega arith)), inl (is_zero refl), refl)
      go false (written, true) is_zero pos (answered, g) =
          announce-Introduced (answers reached takes) written takes_meta (pos refl) answered g
      go false (written, false) is_zero pos (m, lt, before, denied, g) =
          let same : 0 + m ≡ m = omega arith in
          (
            m,
            omega arith,
            before,
            inr (inl (lt, subst (λ x. answers reached takes x ≡ false) same denied)),
            g,
          )

module _ (p : Platform) (c : Primitives) (n session_id : ℕ) (listen_addr secret : Option (List ℕ))
    (sockets : Endpoint → Option (List ℕ)) where
  -- A receiver that has heard nothing.
  abbrev pub Unheard : ReceiverSession p c → Type 0
  Unheard r =
      (r.n_relays ≡ n)
      × (r.decoder ≡ none)
      × (r.pending ≡ [])
      × (r.cipher ≡ cipher_of c secret)
      × (r.session_id ≡ session_id)

  -- What is written and returned.
  abbrev pub Joins :
      (ℕ → Bool)
      → List (ℕ × WsOut) × Opening (ReceiverSession p c × Option (List ℕ × Endpoint))
      → Type 0
  Joins answer (written, opened (r, listener)) =
      (0 < n)
      × Answer answer n 0
      × Unheard r
      × (listener ≡ advertise sockets listen_addr)
      × (written ≡ each_from n 0 (send (hello session_id role_receiver)))
  Joins answer (written, failed) =
      (m : ℕ) × (m < suc n)
      × Answer answer m 0
      × ((n ≡ 0) ⊎ ((m < n) × (answer m ≡ false)))
      × (written ≡ each_from m 0 (send (hello session_id role_receiver)))
  Joins answer (written, panicked) = ⊥

  -- `ReceiverSession::connect` greets the relays in their order, each once, and ends with an error at
  -- the first that is not reached or does not take its Hello, having greeted those before it. When all
  -- are greeted the session has heard nothing, and a direct link is advertised when its listener
  -- could be bound.
  pub connect_receiver-Joins :
      (reached takes : ℕ → Bool)
      → Joins
          (answers reached takes)
          (connect_receiver p c n session_id listen_addr secret reached takes sockets)
  unfolding connect_receiver receiver_of ids_from
  connect_receiver-Joins reached takes =
      go (n == 0) (greet n 0 reached takes out) (λ none_. ground arith) (λ some_. ground arith)
        (greet-Greeted n 0 reached takes out)
    where
      out : WsOut
      out = send (hello session_id role_receiver)

      fresh : ReceiverSession p c × Option (List ℕ × Endpoint)
      fresh =
          let listener = advertise sockets listen_addr in
          (receiver_of p c n session_id listener secret, listener)

      go :
          (b : Bool) (r : List (ℕ × WsOut) × Bool)
          → (b ≡ true → n ≡ 0)
          → (b ≡ false → 0 < n)
          → Greeted (answers reached takes) n 0 out r
          → Joins
              (answers reached takes)
              (if b then ([], failed) else if not r.1 then (r.0, failed) else (r.0, opened fresh))
      go true r is_zero pos g =
          (0, omega arith, (λ j low high. absurd (omega arith)), inl (is_zero refl), refl)
      go false (written, true) is_zero pos (answered, g) =
          (pos refl, answered, (refl, refl, refl, refl, refl), refl, g)
      go false (written, false) is_zero pos (m, lt, before, denied, g) =
          let same : 0 + m ≡ m = omega arith in
          (
            m,
            omega arith,
            before,
            inr (lt, subst (λ x. answers reached takes x ≡ false) same denied),
            g,
          )
