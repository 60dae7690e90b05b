-- ===== src/Decoder/Progress/Complete.antt =====
-- A symbol of an id below `l` resolves that input, so all of them complete the decoder.
use orbit_transfer.Prelude.{
  ℕ, zero, suc, ◌+◌, ◌<◌, ◌≡◌, refl, subst, ◌⊎◌, inl, inr, Bool, true, false, List, [], ◌∷◌, Option,
  none, some, arith, ltb, le→leb, ◌==◌, length, Bool-cases, ◌>>=◌,
}
use orbit_transfer.Prelude.Sorted.{contains}
use orbit_transfer.Platform.{Platform}
use orbit_transfer.Soliton.{get_neighbors}
use orbit_transfer.Encoder.{EncodedSymbol}
use orbit_transfer.Soliton.Neighbors.{get_neighbors_systematic}
use orbit_transfer.Decoder.Unresolved.{unresolved}
use orbit_transfer.Decoder.{
  Graph, FountainDecoder, Resolved, has, is_complete, absorb, add_fresh, add_symbol,
}
use orbit_transfer.Decoder.Progress.{Extends, GrowsTo, Resolves, absorb-GrowsTo, absorb-Resolves}

module _ (p : Platform) where
  -- An input is resolved, or all are.
  abbrev pub Done : FountainDecoder p → ℕ → Type 0
  Done d i = (is_complete p d ≡ true) ⊎ (has i d.graph.resolved ≡ true)

  -- The received ids that are inputs are done.
  abbrev pub Known : FountainDecoder p → Type 0
  Known d = (i : ℕ) → contains i d.received_esis ≡ true → i < d.l → Done d i

  -- What a symbol does to a decoder that keeps to this.
  abbrev pub Moves : FountainDecoder p → ℕ → Option (FountainDecoder p × Bool) → Type 0
  Moves d esi none = Unit {0}
  Moves d esi (some (d', complete)) =
      ((i : ℕ) → Done d i → Done d' i)
      × (esi < d.l → Done d' esi)
      × Known d'
      × (d'.l ≡ d.l)
      × (d'.sampler ≡ d.sampler)

  abbrev after : FountainDecoder p → ℕ → Graph → FountainDecoder p
  after d esi graph = record d { graph = graph; received_esis = esi ∷ d.received_esis }

  module _ (d : FountainDecoder p) (known : Known d) (part : is_complete p d ≡ false) where
    Done-Extends :
        (d' : FountainDecoder p) (i : ℕ)
        → Extends d.graph.resolved d'.graph.resolved
        → Done d i
        → Done d' i
    Done-Extends d' i e (inl all) = absurd (ground arith)
    Done-Extends d' i e (inr h) = inr (e i h)

    after-Moves :
        (esi : ℕ) (r : Option Graph)
        → GrowsTo d.graph.resolved r
        → (esi < d.l → Resolves esi r)
        → Moves d esi (r >>= λ graph. some (after d esi graph, is_complete p (after d esi graph)))
    unfolding Resolves contains
    after-Moves esi none grows solves = tt
    after-Moves esi (some g') grows solves = (
      λ i. Done-Extends (after d esi g') i grows,
      λ h. inr (solves h),
      λ i member inside. elim (Bool-cases (esi == i)) [
        | inl new ↦
            let here : esi ≡ i = ground arith in
            subst (Done (after d esi g')) here (inr (solves (omega arith)))
        | inr old ↦ Done-Extends (after d esi g') i grows (known i (ground arith) inside)
      ],
      refl,
      refl,
    )

    add_fresh-Moves :
        (symbol : EncodedSymbol)
        → d.sampler.k ≡ d.l
        → 1 < d.l
        → Moves d symbol.esi (add_fresh p d symbol)
    unfolding add_fresh
    add_fresh-Moves symbol same many = elim (Bool-cases (ltb symbol.esi d.l)) [
      | inl inside ↦
          let drawn =
            get_neighbors_systematic p d.sampler symbol.esi (omega arith) (ground arith) in
          rw drawn (
            after-Moves symbol.esi (absorb p d symbol.block (symbol.esi ∷ []))
              (absorb-GrowsTo p d symbol.block (symbol.esi ∷ []))
              (λ h. absorb-Resolves p d symbol.block symbol.esi))
      | inr outside ↦ drawn (get_neighbors p d.sampler symbol.esi) (λ h. absurd (ground arith))
    ]
      where
        drawn :
            (r : Option (ℕ × List ℕ))
            → (symbol.esi < d.l → ⊥)
            → Moves d symbol.esi (
                r >>= λ (degree, neighbors). absorb p d symbol.block neighbors >>= λ graph.
                some (after d symbol.esi graph, is_complete p (after d symbol.esi graph)))
        drawn none outside = tt
        drawn (some (degree, neighbors)) outside =
            after-Moves symbol.esi (absorb p d symbol.block neighbors)
              (absorb-GrowsTo p d symbol.block neighbors) (λ h. absurd (outside h))

  -- What is done stays done when a symbol is added, and a symbol whose id is that of an input makes
  -- that input done.
  pub add_symbol-Moves :
      (d : FountainDecoder p) (symbol : EncodedSymbol)
      → d.sampler.k ≡ d.l
      → 1 < d.l
      → Known d
      → Moves d symbol.esi (add_symbol p d symbol)
  unfolding add_symbol
  add_symbol-Moves d symbol same many known = elim (Bool-cases (is_complete p d)) [
    | inl all ↦ rw (all, Moves) ((λ i h. h), (λ h. inl all), known, refl, refl)
    | inr part ↦ elim (Bool-cases (contains symbol.esi d.received_esis)) [
      | inl old ↦
          rw (part, old, Moves) ((λ i h. h), (λ h. known symbol.esi old h), known, refl, refl)
      | inr fresh ↦ rw (part, fresh, Moves) (add_fresh-Moves d known part symbol same many)
    ]
  ]

  unresolved_zero : (l : ℕ) (m : Resolved) → ((i : ℕ) → i < l → has i m ≡ true) → unresolved l m ≡ 0
  unfolding unresolved
  unresolved_zero zero m h = refl
  unresolved_zero (suc l) m h =
      let last = h l (omega arith) in
      let rest = unresolved_zero l m (λ i lt. h i (omega arith)) in ground arith

  -- A decoder whose count is right is complete when every input is done.
  pub is_complete_all :
      (d : FountainDecoder p)
      → length d.graph.resolved + unresolved d.l d.graph.resolved ≡ d.l
      → ((i : ℕ) → i < d.l → Done d i)
      → is_complete p d ≡ true
  unfolding is_complete
  is_complete_all d counted every = elim (Bool-cases (is_complete p d)) [
    | inl all ↦ all
    | inr part ↦
        let none_open =
          unresolved_zero d.l d.graph.resolved
            (λ i lt. elim (every i lt) [ inl all ↦ cc | inr h ↦ h ]) in
        le→leb d.l (length d.graph.resolved) (omega arith)
  ]
