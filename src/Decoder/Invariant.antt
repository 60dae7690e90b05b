-- ===== src/Decoder/Invariant.antt =====
-- The decoding graph against the true inputs: every resolved input has its true block, every
-- equation holds of the true inputs, and no input is resolved twice. Each step keeps this.
pub mod Steps
use orbit_transfer.Prelude.{ℕ, suc, ◌+◌, ◌≤◌, ◌<◌, ◌≡◌, true, List, Option, none, some, All, length}
use orbit_transfer.Simd.Blocks.{xor_all}
use orbit_transfer.Decoder.Unresolved.{unresolved}
use orbit_transfer.Decoder.{ActiveEquation, Graph, Resolved, has}

-- The queue holds resolved inputs.
abbrev pub Queued : Graph → List ℕ → Type 0
Queued g = All (λ i. has i g.resolved ≡ true)

module _ (size : ℕ) (truth : ℕ → List ℕ) (l : ℕ) where
  abbrev pub EquationHolds : ActiveEquation → Type 0
  EquationHolds eq = (eq.block ≡ xor_all size truth eq.neighbors) × All (λ i. i < l) eq.neighbors

  abbrev pub SlotHolds : Option ActiveEquation → Type 0
  SlotHolds none = Unit {0}
  SlotHolds (some eq) = EquationHolds eq

  abbrev pub IsTrue : ℕ × List ℕ → Type 0
  IsTrue (i, b) = b ≡ truth i

  pub record GraphInv (g : Graph) : Type 0 where
    pub solved : All IsTrue g.resolved
    pub equations : All SlotHolds g.active_equations
    pub counted : length g.resolved + unresolved l g.resolved ≡ l

  -- From `g` and `queue` to `g'` and `queue'`: the invariant holds, the queue is resolved, and
  -- what is queued or open is as much as before.
  abbrev pub Advanced : Graph → List ℕ → Graph → List ℕ → Type 0
  Advanced g queue g' queue' =
      GraphInv g'
      × Queued g' queue'
      × (length queue' + unresolved l g'.resolved ≡ length queue + unresolved l g.resolved)
      × (unresolved l g'.resolved ≤ unresolved l g.resolved)
