-- ===== src/Scheduler/RoundRobin.antt =====
-- The relays of crates/orbit-transport/src/scheduler.rs take turns.
use orbit_transfer.Prelude.{
  ℕ, zero, suc, ◌+◌, ◌%◌, ◌<◌, ◌≡◌, refl, ap, sym, subst, Bool, List, [], ◌∷◌, Option, none, some,
  arith, Bool-cases, inl, inr, length, ◌==◌, if◌then◌else◌, All,
}
use orbit_transfer.Scheduler.{SchedulerFloat, MultiPathScheduler, new, with_relays, pick}

-- `n` turns from relay `i` of `relays`.
unfoldable pub turns : ℕ → ℕ → ℕ → List ℕ
turns zero relays i = []
turns (suc n) relays i = i ∷ turns n relays ((i + 1) % relays)

turns-Below : (n relays i : ℕ) → i < relays → All (λ j. j < relays) (turns n relays i)
unfolding turns
turns-Below zero relays i h = tt
turns-Below (suc n) relays i h = (h, turns-Below n relays ((i + 1) % relays) (omega arith))

abbrev with_relay : Option ℕ → List ℕ → List ℕ
with_relay (some i) rest = i ∷ rest
with_relay none rest = rest

module _ (f : SchedulerFloat) where
  -- The relays that the symbols of a sequence are given to, those of the direct channel left out.
  unfoldable pub picked : List ℕ → MultiPathScheduler f → List ℕ
  unfolding pick
  picked [] s = []
  picked (seq ∷ seqs) s = with_relay ((pick f seq s).0) (picked seqs ((pick f seq s).1))

  picked-turns-from :
      (seqs : List ℕ) (s : MultiPathScheduler f)
      → picked seqs s ≡ turns (length (picked seqs s)) s.n_relays s.next_relay
  unfolding picked pick turns
  picked-turns-from [] s = refl
  picked-turns-from (seq ∷ seqs) s =
      let relayed : Bool = f.ltb (f.fract (f.mul (f.of_ℕ seq) s.relay_ratio)) s.relay_ratio in
      let next : MultiPathScheduler f = record s { next_relay = (s.next_relay + 1) % s.n_relays } in
      elim (Bool-cases relayed) [
        | inl goes ↦
            let chosen : pick f seq s ≡ (some s.next_relay, next) = rw (goes, pick) refl in
            subst Turns (sym chosen) (ap (λ t. s.next_relay ∷ t) (picked-turns-from seqs next))
        | inr stays ↦
            let direct : pick f seq s ≡ (none, s) = rw (stays, pick) refl in
            subst Turns (sym direct) (picked-turns-from seqs s)
      ]
    where
      Turns : Option ℕ × MultiPathScheduler f → Type 0
      Turns r =
          let relays : List ℕ = with_relay r.0 (picked seqs r.1) in
          relays ≡ turns (length relays) s.n_relays s.next_relay

  -- Whatever the arithmetic of the ratio decides, the symbols that go to relays go to relay 0, 1,
  -- and so on in turn, over again after the last one, and each of these relays is there.
  pub picked-turns :
      (p2p_bw relay_bw n : ℕ) (seqs : List ℕ)
      → let relays : List ℕ = picked seqs (with_relays f n (new f p2p_bw relay_bw)) in
        let count : ℕ = if n == 0 then 1 else n in
        (relays ≡ turns (length relays) count 0)
        × All (λ i. i < count) (turns (length relays) count 0)
  unfolding with_relays new
  picked-turns p2p_bw relay_bw n seqs = (
    picked-turns-from seqs (with_relays f n (new f p2p_bw relay_bw)),
    turns-Below _ _ 0 (ground arith),
  )
