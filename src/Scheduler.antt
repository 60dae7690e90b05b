-- ===== src/Scheduler.antt =====
-- crates/orbit-transport/src/scheduler.rs: which path carries a symbol. The arithmetic of `f32` is
-- the parameter `SchedulerFloat`; the sum of the bandwidths is taken to be below 2 ^ 64.
pub mod RoundRobin
use orbit_transfer.Prelude.{ℕ, ◌+◌, ◌%◌, Bool, Option, none, some, ◌==◌, if◌then◌else◌}

-- The operations of `f32` that the scheduler uses; `max` of `usize` is written out.
pub record SchedulerFloat : Type 1 where
  pub Float : Type 0
  pub half : Float
  pub of_ℕ : ℕ → Float
  pub mul : Float → Float → Float
  pub div : Float → Float → Float
  pub fract : Float → Float
  pub ltb : Float → Float → Bool

module _ (f : SchedulerFloat) where
  pub record MultiPathScheduler : Type 0 where
    pub relay_ratio : f.Float
    pub n_relays : ℕ
    pub next_relay : ℕ

  unfoldable pub new : ℕ → ℕ → MultiPathScheduler
  new p2p_bw relay_bw =
      let total = p2p_bw + relay_bw in
      record {
        relay_ratio = if total == 0 then f.half else f.div (f.of_ℕ relay_bw) (f.of_ℕ total);
        n_relays = 1;
        next_relay = 0;
      }

  unfoldable pub with_relays : ℕ → MultiPathScheduler → MultiPathScheduler
  with_relays n s = record s { n_relays = if n == 0 then 1 else n }

  unfoldable pub pick : ℕ → MultiPathScheduler → Option ℕ × MultiPathScheduler
  pick seq s =
      if f.ltb (f.fract (f.mul (f.of_ℕ seq) s.relay_ratio)) s.relay_ratio
      then (some s.next_relay, record s { next_relay = (s.next_relay + 1) % s.n_relays })
      else (none, s)
