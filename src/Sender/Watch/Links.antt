-- ===== src/Sender/Watch/Links.antt =====
-- How many events the tasks of `SenderSession::connect` send, of crates/orbit-transport/src/session.rs.
use orbit_transfer.Prelude.{
  ℕ, zero, suc, ◌+◌, ◌≤◌, ◌<◌, ◌≡◌, refl, subst, inl, inr, Bool, true, false, List, [], ◌∷◌, ◌++◌,
  Option, none, some, arith, All, length, length-append, Bool-cases, ◌==◌, ◌||◌, if◌then◌else◌,
}
use orbit_transfer.Wire.{OrbitMessage, hello, meta, symbol, done, ready, direct}
use orbit_transfer.Client.{RecvResult, message, closed, refused, broken, panicked}
use orbit_transfer.Sender.{SenderEvent, got_ready, got_direct}
use orbit_transfer.Sender.Watch.{
  Watch, Observed, received, dialled, starting, end_task, on_message, on_result, is_dialling,
  observe, observe_all,
}

-- The tasks are those of the first `n` relays.
abbrev pub IsTask : ℕ → Observed → Type 0
IsTask n (received i r) = i < n
IsTask n (dialled up) = Unit {0}

abbrev pub directs : List SenderEvent → ℕ
directs [] = 0
directs (got_direct ∷ events) = 1 + directs events
directs (got_ready ∷ events) = directs events

abbrev pub bit : Bool → ℕ
bit true = 1
bit false = 0

abbrev ended_count : ℕ → (ℕ → Bool) → ℕ
ended_count zero ended = 0
ended_count (suc n) ended = bit (ended n) + ended_count n ended

abbrev pending : Option ℕ → ℕ
pending none = 0
pending (some i) = 1

directs-append : (a b : List SenderEvent) → directs (a ++ b) ≡ directs a + directs b
directs-append [] b = omega arith
directs-append (got_direct ∷ a) b = let rest = directs-append a b in omega arith
directs-append (got_ready ∷ a) b = directs-append a b

bit_le : (b : Bool) → bit b ≤ 1
bit_le true = omega arith
bit_le false = omega arith

ended_count_le : (n : ℕ) (ended : ℕ → Bool) → ended_count n ended ≤ n
ended_count_le zero ended = omega arith
ended_count_le (suc n) ended =
    let rest = ended_count_le n ended in let one = bit_le (ended n) in omega arith

bit_or : (a b : Bool) → bit b ≤ bit (a || b)
bit_or true true = omega arith
bit_or true false = omega arith
bit_or false b = omega arith

ended_count_grows :
    (n i : ℕ) (ended : ℕ → Bool) → ended_count n ended ≤ ended_count n (λ j. i == j || ended j)
ended_count_grows zero i ended = omega arith
ended_count_grows (suc n) i ended =
    let rest = ended_count_grows n i ended in let one = bit_or (i == n) (ended n) in omega arith

ended_count_more :
    (n i : ℕ) (ended : ℕ → Bool)
    → i < n
    → ended i ≡ false
    → ended_count n ended + 1 ≤ ended_count n (λ j. i == j || ended j)
ended_count_more zero i ended inside live = absurd (omega arith)
ended_count_more (suc n) i ended inside live = elim (Bool-cases (i == n)) [
  | inl last ↦
      let rest = ended_count_grows n i ended in
      let same : i ≡ n = ground arith in
      let off : ended n ≡ false = subst (λ j. ended j ≡ false) same live in
      rw (last, off) (omega arith)
  | inr below ↦
      let rest = ended_count_more n i ended (ground arith) live in
      let one = bit_or (i == n) (ended n) in omega arith
]

module _ (n : ℕ) where
  record Inv (w : Watch) : Type 0 where
    one : directs w.events + pending w.dialling ≡ bit w.direct_up
    few : length w.events ≤ ended_count n w.ended + directs w.events

  end_task-Inv : (i : ℕ) (w : Watch) → Inv w → Inv (end_task i w)
  unfolding end_task
  end_task-Inv i w h =
      let grown = ended_count_grows n i w.ended in
      let few = h.few in record { one = h.one; few = omega arith }

  on_message-Inv :
      (i : ℕ) (m : OrbitMessage) (w : Watch)
      → i < n
      → w.ended i ≡ false
      → Inv w
      → Inv (on_message i m w)
  unfolding on_message end_task
  on_message-Inv i (ready id) w inside live h =
      let grown = ended_count_more n i w.ended inside live in
      let same = directs-append w.events (got_ready ∷ []) in
      let long = length-append w.events (got_ready ∷ []) in
      let few = h.few in let one = h.one in record { one = omega arith; few = omega arith }
  on_message-Inv i (direct id addr) w inside live h = go w.direct_up h.one
    where
      go :
          (up : Bool)
          → directs w.events + pending w.dialling ≡ bit up
          → Inv (if up then w else record w { direct_up = true; dialling = some i })
      go true e = h
      go false e = record { one = omega arith; few = h.few }
  on_message-Inv i (hello id role) w inside live h = h
  on_message-Inv i (meta id filename size symbol_size k checksum) w inside live h = h
  on_message-Inv i (symbol id esi payload) w inside live h = h
  on_message-Inv i (done id) w inside live h = h

  on_result-Inv :
      (i : ℕ) (r : RecvResult) (w : Watch)
      → i < n
      → w.ended i ≡ false
      → Inv w
      → Inv (on_result i r w)
  unfolding on_result
  on_result-Inv i (message m) w inside live h = on_message-Inv i m w inside live h
  on_result-Inv i closed w inside live h = end_task-Inv i w h
  on_result-Inv i (refused e) w inside live h = end_task-Inv i w h
  on_result-Inv i broken w inside live h = end_task-Inv i w h
  on_result-Inv i panicked w inside live h = end_task-Inv i w h

  observe-Inv : (w : Watch) (o : Observed) → IsTask n o → Inv w → Inv (observe w o)
  unfolding observe
  observe-Inv w (received i r) inside h = go (w.ended i) (is_dialling i w.dialling) refl
    where
      go : (over busy : Bool) → w.ended i ≡ over → Inv (if over || busy then w else on_result i r w)
      go true busy e = h
      go false true e = h
      go false false e = on_result-Inv i r w inside e h
  observe-Inv w (dialled up) inside h = go w.dialling up h.one
    where
      go :
          (d : Option ℕ) (up : Bool)
          → directs w.events + pending d ≡ bit w.direct_up
          → Inv (elim d [
            | none ↦ w
            | some i ↦
                if up
                then record w { dialling = none; events = w.events ++ got_direct ∷ [] }
                else record w { dialling = none; direct_up = false }
          ])
      go none up e = h
      go (some i) true e =
          let same = directs-append w.events (got_direct ∷ []) in
          let long = length-append w.events (got_direct ∷ []) in
          let few = h.few in record { one = omega arith; few = omega arith }
      go (some i) false e =
          let one = bit_le w.direct_up in record { one = omega arith; few = h.few }

  observe_all-Inv :
      (os : List Observed) (w : Watch) → All (IsTask n) os → Inv w → Inv (observe_all w os)
  unfolding observe_all
  observe_all-Inv [] w inside h = h
  observe_all-Inv (o ∷ os) w inside h =
      observe_all-Inv os (observe w o) inside.1 (observe-Inv w o inside.0 h)

  none_ended : (m : ℕ) → ended_count m (λ i. false) ≡ 0
  none_ended zero = refl
  none_ended (suc m) = let rest = none_ended m in omega arith

  -- However the tasks of `n` relays and the attempts to connect are interleaved, at most one direct
  -- link reaches the sender, and only while the flag is up; and at most `n + 1` events are sent, so
  -- that the channel of events, which `connect` makes with room for `n + 2`, is never full.
  pub observe_all-directs :
      (os : List Observed)
      → All (IsTask n) os
      → let w = observe_all starting os in
        (directs w.events ≤ bit w.direct_up) × (length w.events ≤ n + 1)
  observe_all-directs os inside =
      let w = observe_all starting os in
      let none_yet = none_ended n in
      let h = observe_all-Inv os starting inside (record { one = refl; few = omega arith }) in
      let one = h.one in
      let few = h.few in
      let up = bit_le w.direct_up in
      let ends = ended_count_le n w.ended in (omega arith, omega arith)
