-- ===== src/Decoder/Sound.antt =====
-- `add_symbol` and `reconstruct` on symbols that tell the truth.
use native.Mathlib.Nat.{le_refl}
use orbit_transfer.Prelude.{
  ℕ, ◌≤◌, ◌<◌, ◌≡◌, refl, sym, subst, Bool, List, ◌∷◌, Option, none, some, arith, length, All,
  Bool-cases, inl, inr, ◌||◌, ◌>>=◌,
}
use orbit_transfer.Prelude.Sorted.{contains}
use orbit_transfer.Platform.{Platform, DrawsInRange}
use orbit_transfer.Soliton.{get_neighbors}
use orbit_transfer.Soliton.Neighbors.{GoodNeighbors, get_neighbors_result}
use orbit_transfer.Encoder.{EncodedSymbol}
use orbit_transfer.Simd.Blocks.{IsBlock, xor_all}
use orbit_transfer.Decoder.Invariant.{GraphInv}
use orbit_transfer.Decoder.Invariant.Steps.{Settled}
use orbit_transfer.Decoder.Symbols.{absorb-Settled}
use orbit_transfer.Decoder.{Graph, FountainDecoder, absorb, is_complete, add_fresh, add_symbol}

module _ (p : Platform) (size : ℕ) (truth : ℕ → List ℕ)
    (fits : (i : ℕ) → IsBlock size (truth i)) where
  -- A decoder whose graph tells the truth about its `l` inputs.
  pub record DecoderInv (d : FountainDecoder p) : Type 0 where
    pub graph_inv : GraphInv size truth d.l d.graph
    pub same_inputs : d.sampler.k ≡ d.l
    pub some_input : 0 < d.l
    pub same_size : d.symbol_size ≡ size

  -- The fields that no symbol changes.
  abbrev pub SameTransfer : FountainDecoder p → FountainDecoder p → Type 0
  SameTransfer d d' =
      (d'.payload_len ≡ d.payload_len)
      × (d'.symbol_size ≡ d.symbol_size)
      × (d'.k ≡ d.k)
      × (d'.l ≡ d.l)
      × (d'.expected_checksum ≡ d.expected_checksum)
      × (d'.sampler ≡ d.sampler)

  -- A normal return with the invariant, the truth about completion, and no input lost.
  abbrev pub Accepts : FountainDecoder p → Option (FountainDecoder p × Bool) → Type 0
  Accepts d none = ⊥
  Accepts d (some (d', complete)) =
      DecoderInv d'
      × (complete ≡ is_complete p d')
      × (length d.graph.resolved ≤ length d'.graph.resolved)
      × SameTransfer d d'

  abbrev after : FountainDecoder p → ℕ → Graph → FountainDecoder p
  after d esi graph = record d { graph = graph; received_esis = esi ∷ d.received_esis }

  module _ (in_range : DrawsInRange p) (d : FountainDecoder p) (v : DecoderInv d) where
    add_fresh-Accepts :
        (symbol : EncodedSymbol) (degree : ℕ) (ns : List ℕ)
        → get_neighbors p d.sampler symbol.esi ≡ some (degree, ns)
        → symbol.block ≡ xor_all size truth ns
        → Accepts d (add_fresh p d symbol)
    unfolding add_fresh
    add_fresh-Accepts symbol degree ns drawn e =
        rw (drawn, Accepts)
          (go (absorb p d symbol.block ns) (
            absorb-Settled size truth fits d.l p d symbol.block ns refl v.graph_inv good.2
              (subst (λ k. All (λ i. i < k) ns) v.same_inputs good.0) e))
      where
        good : GoodNeighbors p d.sampler.k degree ns
        good =
            get_neighbors_result p in_range d.sampler symbol.esi degree ns
              (subst (λ k. 0 < k) (sym v.same_inputs) v.some_input) drawn

        go :
            (r : Option Graph)
            → Settled size truth fits d.l d.graph r
            → Accepts d (
                r >>= λ graph.
                some (after d symbol.esi graph, is_complete p (after d symbol.esi graph)))
        go none s = s
        go (some g') s = (
          record {
            graph_inv = s.0;
            same_inputs = v.same_inputs;
            some_input = v.some_input;
            same_size = v.same_size;
          },
          refl,
          omega (arith, v.graph_inv.counted, (s.0).counted, s.1),
          (refl, refl, refl, refl, refl, refl),
        )

    -- A symbol whose data is the exclusive or of the true inputs that its id stands for never
    -- makes the decoder panic, and the ripple ends: every resolved input still has its true
    -- block, no fewer are resolved, and the flag returned says whether all inputs are.
    pub add_symbol-Accepts :
        (symbol : EncodedSymbol) (degree : ℕ) (ns : List ℕ)
        → get_neighbors p d.sampler symbol.esi ≡ some (degree, ns)
        → symbol.block ≡ xor_all size truth ns
        → Accepts d (add_symbol p d symbol)
    add_symbol-Accepts symbol degree ns drawn e =
        elim (Bool-cases (is_complete p d || contains symbol.esi d.received_esis)) [
          | inl old ↦
              unfold add_symbol in
              rw (old, Accepts) (v, refl, le_refl _, (refl, refl, refl, refl, refl, refl))
          | inr new ↦
              unfold add_symbol in rw (new, Accepts) (add_fresh-Accepts symbol degree ns drawn e)
        ]
