-- ===== src/Relay/Leaving.antt =====
-- A connection of crates/orbit-relay/src/lib.rs that ends: `handle_conn` and `leave_room`.
use orbit_transfer.Prelude.{
  ◌||◌, Bool, ℕ, ◌≡◌, refl, sym, All, ap, subst, ◌∙◌, true, false, List, [], ◌∷◌, ◌++◌, Option,
  none, some, ◌==◌, arith, Bool-cases, Option-cases, inl, inr, ◌⊎◌,
}
use orbit_transfer.Wire.{OrbitMessage, Outcome, ok, err, panic, session_id, parse_frame}
use orbit_transfer.Relay.Delivery.{route_isolated}
use orbit_transfer.Relay.{
  pong, Room, Link, RelayCore, Sends, Exit, WsEvent, frame, ping, closed, failed, ignored, route,
  leave_room, unlink, is_vacant, finish, handle_conn,
}

unlink-other :
    (conn : ℕ) (end_ : Option Link) (link : Link)
    → unlink conn end_ ≡ some link
    → (link.conn_id == conn) ≡ false
unlink-other conn none link h = absurd (ground arith)
unlink-other conn (some other) link h = elim (Bool-cases (other.conn_id == conn)) [
  | inl gone ↦ absurd (ground arith)
  | inr stays ↦
      let same : other ≡ link = ground arith in subst (λ l. (l.conn_id == conn) ≡ false) same stays
]

-- After `leave_room`, a link that is still an end of the room is not that of the connection.
leave_room_absent :
    (core : RelayCore) (id conn : ℕ) (room : Room) (link : Link)
    → (leave_room core id conn).rooms id ≡ some room
    → (room.sender ≡ some link) ⊎ (room.receiver ≡ some link)
    → (link.conn_id == conn) ≡ false
unfolding leave_room
leave_room_absent core id conn room link found there = elim (Option-cases (core.rooms id)) [
  | inl none_ ↦ absurd (ground arith)
  | inr (old, before) ↦
      let left = record old {
        sender = unlink conn old.sender;
        receiver = unlink conn old.receiver;
      } in
      let here : (id == id) ≡ true = ground arith in
      elim (Bool-cases (is_vacant left)) [
        | inl vacant ↦ absurd (ground arith)
        | inr taken ↦
            let same : left ≡ room = ground arith in
            elim there [
              | inl sends ↦ unlink-other conn old.sender link (ap (λ r. r.sender) same ∙ sends)
              | inr receives ↦
                  unlink-other conn old.receiver link (ap (λ r. r.receiver) same ∙ receives)
            ]
      ]
]

-- No end of a room of the session is the connection's.
abbrev Clear : RelayCore → ℕ → ℕ → Type 0
Clear core conn id =
    (room : Room) (link : Link)
    → core.rooms id ≡ some room
    → (room.sender ≡ some link) ⊎ (room.receiver ≡ some link)
    → (link.conn_id == conn) ≡ false

-- A message that the event carries is of session `id`.
abbrev pub Speaks : ℕ → WsEvent → Type 0
Speaks id (frame bytes) =
    (m : OrbitMessage) → (parse_frame bytes).0 ≡ ok (some m) → session_id m ≡ id
Speaks id (ping p taken) = Unit {0}
Speaks id closed = Unit {0}
Speaks id failed = Unit {0}
Speaks id ignored = Unit {0}

-- The same as a test: whether the room, if there is one, has an end of the connection.
abbrev pub holds : ℕ → Option Link → Bool
holds conn none = false
holds conn (some link) = link.conn_id == conn

abbrev pub is_registered : ℕ → Option Room → Bool
is_registered conn none = false
is_registered conn (some room) = holds conn room.sender || holds conn room.receiver

Clear-is_registered :
    (core : RelayCore) (conn i : ℕ) → Clear core conn i → is_registered conn (core.rooms i) ≡ false
Clear-is_registered core conn i clear = elim (Option-cases (core.rooms i)) [
  | inl none_ ↦ rw none_ refl
  | inr (room, found) ↦ rw found (
      go room.sender room.receiver (λ l sends. clear room l found (inl sends))
        (λ l receives. clear room l found (inr receives)))
]
  where
    go :
        (sender receiver : Option Link)
        → ((l : Link) → sender ≡ some l → (l.conn_id == conn) ≡ false)
        → ((l : Link) → receiver ≡ some l → (l.conn_id == conn) ≡ false)
        → (holds conn sender || holds conn receiver) ≡ false
    go none none a b = refl
    go none (some l) a b = b l refl
    go (some l) none a b = rw (a l refl) refl
    go (some l) (some l') a b = rw (a l refl) (b l' refl)

is_registered-Clear :
    (core : RelayCore) (conn i : ℕ) → is_registered conn (core.rooms i) ≡ false → Clear core conn i
is_registered-Clear core conn i e room link found there =
    let here : is_registered conn (some room) ≡ false = ap (is_registered conn) (sym found) ∙ e in
    elim there [
      | inl sends ↦
          first (holds conn room.receiver)
            (ap (λ l. holds conn l || holds conn room.receiver) (sym sends) ∙ here)
      | inr receives ↦
          second (holds conn room.sender)
            (ap (λ l. holds conn room.sender || holds conn l) (sym receives) ∙ here)
    ]
  where
    first : (b : Bool) → ((link.conn_id == conn) || b) ≡ false → (link.conn_id == conn) ≡ false
    first b h = ground arith

    second : (b : Bool) → (b || (link.conn_id == conn)) ≡ false → (link.conn_id == conn) ≡ false
    second b h = ground arith

leave_room_isolated :
    (core : RelayCore) (id conn i : ℕ)
    → (id == i) ≡ false
    → (leave_room core id conn).rooms i ≡ core.rooms i
unfolding leave_room
leave_room_isolated core id conn i away = ground arith

module _ (conn tx id : ℕ) where
  link : Link
  link = record { conn_id = conn; tx = tx }

  -- Every room but that of session `id`; before a message, that too.
  abbrev Others : RelayCore → Type 0
  Others core = (i : ℕ) → (id == i) ≡ false → Clear core conn i

  abbrev Joined : RelayCore → Option ℕ → Type 0
  Joined core none = Clear core conn id
  Joined core (some own) = own ≡ id

  -- A connection that ended as it should holds nothing.
  abbrev Gone : RelayCore × Sends × Exit → Type 0
  Gone x = x.2 ≡ Exit.finished → (i : ℕ) → Clear x.0 conn i

  every : (core : RelayCore) → Others core → Clear core conn id → (i : ℕ) → Clear core conn i
  every core others own i = elim (Bool-cases (id == i)) [
    | inl here ↦ let same : id ≡ i = ground arith in subst (Clear core conn) same own
    | inr away ↦ others i away
  ]

  Clear-same :
      (core core' : RelayCore) (i : ℕ)
      → core'.rooms i ≡ core.rooms i
      → Clear core conn i
      → Clear core' conn i
  Clear-same core core' i same clear room l found = clear room l (sym same ∙ found)

  finish-Gone :
      (core : RelayCore) (session : Option ℕ)
      → Others core
      → Joined core session
      → (i : ℕ) → Clear (finish core session link) conn i
  unfolding finish link
  finish-Gone core none others own = every core others own
  finish-Gone core (some own) others same =
      let left = leave_room core own conn in
      let away : Others left = λ i other.
        Clear-same core left i
          (leave_room_isolated core own conn i (subst (λ x. (x == i) ≡ false) (sym same) other))
          (others i other) in
      every left away (λ room l found there.
        leave_room_absent core own conn room l
          (subst (λ x. left.rooms x ≡ some room) (sym same) found) there)

  route-Others :
      (core : RelayCore) (m : OrbitMessage)
      → session_id m ≡ id
      → Others core
      → Others (route core m link).0
  route-Others core m same others i away =
      Clear-same core (route core m link).0 i
        (route_isolated core m link i (subst (λ x. (x == i) ≡ false) (sym same) away))
        (others i away)

  handle_conn-Gone :
      (core : RelayCore) (session : Option ℕ) (sent : Sends) (events : List WsEvent)
      → All (Speaks id) events
      → Others core
      → Joined core session
      → Gone (handle_conn core session link sent events)
  unfolding handle_conn link
  handle_conn-Gone core session sent [] speaks others own = λ e. finish-Gone core session others own
  handle_conn-Gone core session sent (failed ∷ events) speaks others own =
      λ e. finish-Gone core session others own
  handle_conn-Gone core session sent (closed ∷ events) speaks others own =
      λ e. finish-Gone core session others own
  handle_conn-Gone core session sent (ignored ∷ events) speaks others own =
      handle_conn-Gone core session sent events speaks.1 others own
  handle_conn-Gone core session sent (ping p true ∷ events) speaks others own =
      handle_conn-Gone core session (sent ++ (link.tx, pong p) ∷ []) events speaks.1 others own
  handle_conn-Gone core session sent (ping p false ∷ events) speaks others own = λ e. cc
  handle_conn-Gone core session sent (frame bytes ∷ events) (speaks, later) others own =
      go ((parse_frame bytes).0) speaks (handle_conn-Gone core session sent events later others own)
        (λ m same.
          handle_conn-Gone (route core m link).0 (some (session_id m))
            (sent ++ (route core m link).1) events later (route-Others core m same others) same)
    where
      go :
          (parsed : Outcome (Option OrbitMessage))
          → ((m : OrbitMessage) → parsed ≡ ok (some m) → session_id m ≡ id)
          → Gone (handle_conn core session link sent events)
          → ((m : OrbitMessage)
              → session_id m ≡ id
              → Gone (
                  handle_conn
                    (route core m link).0
                    (some (session_id m))
                    link
                    (sent ++ (route core m link).1)
                    events))
          → Gone (elim parsed as (λ _. RelayCore × Sends × Exit) [
            | ok none ↦ handle_conn core session link sent events
            | ok (some m) ↦
                let (core', sends) = route core m link in
                handle_conn core' (some (session_id m)) link (sent ++ sends) events
            | err e ↦ (core, sent, Exit.errored)
            | panic ↦ (core, sent, Exit.panicked)
          ])
      go (ok none) says waits goes = waits
      go (ok (some m)) says waits goes = goes m (says m refl)
      go (err e) says waits goes = λ h. cc
      go panic says waits goes = λ h. cc

  -- A connection all of whose messages are of one session, and which no room holds when it begins,
  -- is held by no room when its handler ends other than by an error or a panic: whatever it
  -- registered is taken back, when the stream ends, fails or is closed.
  pub handle_conn-is_registered :
      (core : RelayCore) (events : List WsEvent) (i : ℕ)
      → All (Speaks id) events
      → ((j : ℕ) → is_registered conn (core.rooms j) ≡ false)
      → (handle_conn core none (record { conn_id = conn; tx = tx }) [] events).2 ≡ Exit.finished
      → is_registered conn
          ((handle_conn core none (record { conn_id = conn; tx = tx }) [] events).0.rooms i)
        ≡ false
  unfolding link
  handle_conn-is_registered core events i speaks absent e =
      let clear : (j : ℕ) → Clear core conn j = λ j. is_registered-Clear core conn j (absent j) in
      Clear-is_registered (handle_conn core none link [] events).0 conn i
        (handle_conn-Gone core none [] events speaks (λ j away. clear j) (clear id) e i)
