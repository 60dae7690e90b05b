-- ===== src/Relay/Rooms.antt =====
-- What a room of crates/orbit-relay/src/lib.rs keeps to: `Room::push_buffer` and `drain_buffer`.
use orbit_transfer.Prelude.{
  ℕ, ◌+◌, ◌-◌, ◌≤◌, ◌≡◌, refl, sym, ap, false, List, [], ◌∷◌, ◌++◌, none, some, ltb, length, arith,
  Bool-cases, inl, inr, ◌⊎◌, ◌∙◌,
}
use orbit_transfer.Relay.{
  Room, Link, new_room, max_buffered_bytes, evict, push_buffer, drained_bytes, drain_buffer,
}

-- The bytes of the messages of a buffer.
unfoldable pub total : List (List ℕ) → ℕ
total [] = 0
total (msg ∷ rest) = length msg + total rest

pub total-++ : (a : List (List ℕ)) (msg : List ℕ) → total (a ++ msg ∷ []) ≡ total a + length msg
unfolding total
total-++ [] msg = omega arith
total-++ (m ∷ a) msg = rw (total-++ a msg) (omega arith)

-- What `evict` leaves: a buffer counted right, that has room for the message or is empty.
pub Evicted : ℕ → List (List ℕ) × ℕ → Type 0
unfolding total
Evicted size kept = (total kept.0 ≡ kept.1) × ((kept.1 + size ≤ max_buffered_bytes) ⊎ (kept.0 ≡ []))

evict-Evicted :
    (size : ℕ) (buffer : List (List ℕ)) (bytes : ℕ)
    → bytes ≡ total buffer
    → Evicted size (evict size buffer bytes)
unfolding evict total Evicted
evict-Evicted size [] bytes h = (sym h, inr refl)
evict-Evicted size (old ∷ rest) bytes h =
    elim (Bool-cases (ltb max_buffered_bytes (bytes + size))) [
      | inl full ↦ rw full (evict-Evicted size rest (bytes - length old) (omega arith))
      | inr fits ↦ rw fits (sym h, inl (ground arith))
    ]

-- A buffer that has room is kept whole.
pub evict_fits :
    (size : ℕ) (buffer : List (List ℕ)) (bytes : ℕ)
    → bytes + size ≤ max_buffered_bytes
    → evict size buffer bytes ≡ (buffer, bytes)
unfolding evict
evict_fits size [] bytes h = refl
evict_fits size (old ∷ rest) bytes h =
    let fits : ltb max_buffered_bytes (bytes + size) ≡ false = ground arith in rw fits refl

drained_bytes-total :
    (buffer : List (List ℕ)) (bytes : ℕ) → bytes ≡ total buffer → drained_bytes buffer bytes ≡ 0
unfolding drained_bytes total
drained_bytes-total [] bytes h = h
drained_bytes-total (msg ∷ rest) bytes h =
    drained_bytes-total rest (bytes - length msg) (omega arith)

-- The counter is the size of the buffer, which keeps to the limit or is one message that is
-- larger, and nothing waits in a room that has a receiver.
unfoldable pub IsRoom : Room → Type 0
unfolding total
IsRoom room =
    (total room.buffer ≡ room.buffered_bytes)
    × ((room.buffered_bytes ≤ max_buffered_bytes) ⊎ ((msg : List ℕ) × (room.buffer ≡ msg ∷ [])))
    × ((link : Link) → room.receiver ≡ some link → room.buffer ≡ [])

pub new_room-IsRoom : IsRoom new_room
unfolding IsRoom total
new_room-IsRoom = (refl, inl (omega arith), λ link h. refl)

pub push_buffer-IsRoom :
    (msg : List ℕ) (room : Room)
    → IsRoom room
    → room.receiver ≡ none
    → IsRoom (push_buffer msg room)
unfolding IsRoom push_buffer total Evicted
push_buffer-IsRoom msg room (counted, limit, idle) open_ =
    let kept = evict (length msg) room.buffer room.buffered_bytes in
    let (right, space) = evict-Evicted (length msg) room.buffer room.buffered_bytes (sym counted) in
    (
      total-++ kept.0 msg ∙ ap (λ n. n + length msg) right,
      elim space [ inl fits ↦ inl fits | inr empty ↦ inr (msg, ap (λ b. b ++ msg ∷ []) empty) ],
      λ link there. absurd (ground arith),
    )

pub drain_buffer-IsRoom :
    (room : Room) → total room.buffer ≡ room.buffered_bytes → IsRoom ((drain_buffer room).0)
unfolding IsRoom drain_buffer total
drain_buffer-IsRoom room counted =
    let none_left = drained_bytes-total room.buffer room.buffered_bytes (sym counted) in
    (sym none_left, inl (rw none_left (omega arith)), λ link there. refl)
