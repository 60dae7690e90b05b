-- ===== src/Transfer/Peeled.antt =====
-- What the symbols of a list of ids do to a decoder, against what can be peeled from their equations.
pub mod Exact
use orbit_transfer.Prelude.{
  ℕ, zero, suc, ◌+◌, ◌<◌, ◌≡◌, ◌⊎◌, ◌↔◌, inl, inr, Bool, true, false, ◌||◌, List, [], ◌∷◌, Option,
  none, some, arith, refl, sym, ap, ap₂, subst, ◌∙◌, ◌==◌, length, leb, Bool-cases, Option-cases,
  ◌>>=◌, >>=-eq-some, if◌then◌else◌,
}
use orbit_transfer.Prelude.Le.{IsBytes}
use orbit_transfer.Prelude.Sorted.{contains}
use orbit_transfer.Platform.{Platform, DrawsInRange}
use orbit_transfer.Precode.{s_for, h_for}
use orbit_transfer.Soliton.{SolitonSampler, get_neighbors}
use orbit_transfer.Encoder
use orbit_transfer.Encoder.{EncodedSymbol, FountainEncoder, encode_symbol}
use orbit_transfer.Encoder.Symbols.{symbol_count-covers}
use orbit_transfer.Decoder
use orbit_transfer.Decoder.{
  Graph, FountainDecoder, Resolved, has, err, incomplete, is_complete, reconstruct, absorb,
  add_fresh, add_symbol,
}
use orbit_transfer.Decoder.Unresolved.{unresolved, unresolved_none}
use orbit_transfer.Decoder.Peeling.{Peels, Peels-mono, Sound, Stable, has-Peels, Peels-has}
use orbit_transfer.Decoder.Peeling.Ripple.{Settled, Ended}
use orbit_transfer.Decoder.Peeling.Arrival.{absorb-Ended, Sound-grow}
use orbit_transfer.Decoder.Peeling.Opened.{Check, new-Settled}
use orbit_transfer.Transfer.Lossless.{
  Encodes, Follows, kept, start, feed-Follows, complete-reconstruct,
}
use orbit_transfer.Transfer.Complete.{encode_symbol-esi, new-received}
use orbit_transfer.Transfer.Encoded.{Encoded}
use orbit_transfer.Transfer.{feed}

module _ (p : Platform) (k : ℕ) (sampler : SolitonSampler p) where
  -- The equations of a transfer when the symbols of some ids are there: those of the checks, and one for
  -- each id.
  abbrev pub Equation : List ℕ → List ℕ → Type 0
  Equation esis ns =
      Check p k (s_for k) (h_for k) (s_for k) (h_for k) ns
      ⊎ ((esi : ℕ) × (degree : ℕ) × (contains esi esis ≡ true)
          × (get_neighbors p sampler esi ≡ some (degree, ns)))

  pub Equation-mono :
      (esis esis' : List ℕ)
      → ((esi : ℕ) → contains esi esis ≡ true → contains esi esis' ≡ true)
      → (ns : List ℕ) → Equation esis ns
      → Equation esis' ns
  Equation-mono esis esis' more ns (inl check) = inl check
  Equation-mono esis esis' more ns (inr (esi, degree, member, drawn)) =
      inr (esi, degree, more esi member, drawn)

  -- A decoder that peels the equations of the ids it has received.
  abbrev pub Peeled : FountainDecoder p → Type 0
  Peeled d = Settled (Equation d.received_esis) [] d.graph × (d.sampler ≡ sampler)

  -- What a symbol does to it.
  abbrev Takes : FountainDecoder p → ℕ → Option (FountainDecoder p × Bool) → Type 0
  Takes d esi none = Unit {0}
  Takes d esi (some (d', done)) =
      Peeled d'
      × ((j : ℕ)
          → contains j d'.received_esis ≡ true
          → (esi == j) || contains j d.received_esis ≡ true)
      × ((j : ℕ) → contains j d.received_esis ≡ true → contains j d'.received_esis ≡ true)
      × ((is_complete p d' ≡ true) ⊎ (contains esi d'.received_esis ≡ true))
      × (is_complete p d ≡ true → d' ≡ d)

  Equation-new :
      (esi degree : ℕ) (ns esis : List ℕ)
      → get_neighbors p sampler esi ≡ some (degree, ns)
      → Equation (esi ∷ esis) ns
  unfolding contains
  Equation-new esi degree ns esis drawn = inr (esi, degree, ground arith, drawn)

  Equation-only :
      (esi degree : ℕ) (ns esis m : List ℕ)
      → get_neighbors p sampler esi ≡ some (degree, ns)
      → Equation (esi ∷ esis) m
      → Equation esis m ⊎ (m ≡ ns)
  unfolding contains
  Equation-only esi degree ns esis m drawn (inl check) = inl (inl check)
  Equation-only esi degree ns esis m drawn (inr (esi', degree', member, drawn')) =
      elim (Bool-cases (esi == esi')) [
        | inl here ↦
            let at_esi : esi' ≡ esi = ground arith in
            let again = subst (λ e. get_neighbors p sampler e ≡ some (degree', m)) at_esi drawn' in
            let both : some (degree', m) ≡ some (degree, ns) = sym again ∙ drawn in
            inr (ap (λ r. elim r [ none ↦ m | some pair ↦ pair.1 ]) both)
        | inr other ↦ inl (inr (esi', degree', ground arith, drawn'))
      ]

  add_fresh-Takes :
      (d : FountainDecoder p) (symbol : EncodedSymbol)
      → Peeled d
      → is_complete p d ≡ false
      → Takes d symbol.esi (add_fresh p d symbol)
  unfolding add_fresh contains
  add_fresh-Takes d symbol (settled, same) part =
      elim (Option-cases (get_neighbors p d.sampler symbol.esi)) [
        | inl absent ↦ rw (absent, Takes) tt
        | inr ((degree, ns), drawn) ↦
            let drawn_here : get_neighbors p sampler symbol.esi ≡ some (degree, ns) =
              subst (λ s. get_neighbors p s symbol.esi ≡ some (degree, ns)) same drawn in
            rw (drawn, Takes)
              (go (absorb p d symbol.block ns) (
                absorb-Ended (Equation d.received_esis) (Equation (symbol.esi ∷ d.received_esis)) ns
                  (Equation-mono d.received_esis (symbol.esi ∷ d.received_esis)
                    (λ j h. ground arith))
                  (Equation-new symbol.esi degree ns d.received_esis drawn_here)
                  (λ m e. Equation-only symbol.esi degree ns d.received_esis m drawn_here e) p d
                  symbol.block settled))
      ]
    where
      go :
          (r : Option Graph)
          → Ended (Equation (symbol.esi ∷ d.received_esis)) r
          → Takes d symbol.esi (
              r >>= λ graph.
              let d' = record d { graph = graph; received_esis = symbol.esi ∷ d.received_esis } in
              some (d', is_complete p d'))
      go none e = tt
      go (some g) e =
          ((e, same), (λ j h. h), (λ j h. ground arith), inr (ground arith), (λ done. cc))

  add_symbol-Takes :
      (d : FountainDecoder p) (symbol : EncodedSymbol)
      → Peeled d
      → Takes d symbol.esi (add_symbol p d symbol)
  unfolding add_symbol
  add_symbol-Takes d symbol peeled = elim (Bool-cases (is_complete p d)) [
    | inl all ↦ rw (all, Takes) (peeled, (λ j h. ground arith), (λ j h. h), inl all, (λ done. refl))
    | inr part ↦ elim (Bool-cases (contains symbol.esi d.received_esis)) [
      | inl old ↦
          rw (part, old, Takes) (peeled, (λ j h. ground arith), (λ j h. h), inr old, (λ done. refl))
      | inr fresh ↦ rw (part, fresh, Takes) (add_fresh-Takes d symbol peeled part)
    ]
  ]

  -- What the symbols of a list of ids do to it.
  abbrev pub Fed : FountainDecoder p → List ℕ → FountainDecoder p → Type 0
  Fed d esis d' =
      Peeled d'
      × ((j : ℕ)
          → contains j d'.received_esis ≡ true
          → contains j esis || contains j d.received_esis ≡ true)
      × ((j : ℕ) → contains j d.received_esis ≡ true → contains j d'.received_esis ≡ true)
      × ((is_complete p d' ≡ true)
          ⊎ ((j : ℕ) → contains j esis ≡ true → contains j d'.received_esis ≡ true))
      × (is_complete p d ≡ true → d' ≡ d)

  Fed-cons :
      (d d1 d' : FountainDecoder p) (esi : ℕ) (done : Bool) (esis : List ℕ)
      → Takes d esi (some (d1, done))
      → Fed d1 esis d'
      → Fed d (esi ∷ esis) d'
  unfolding contains
  Fed-cons d d1 d' esi done esis takes rest = (
    rest.0,
    (λ j h. ground (arith, rest.1 j, takes.1 j)),
    (λ j h. rest.2 j (takes.2 j h)),
    elim rest.3 [
      | inl all ↦ inl all
      | inr listed ↦ elim takes.3 [
        | inl all ↦ inl (subst (λ c. is_complete p c ≡ true) (sym (rest.4 all)) all)
        | inr here ↦ inr (λ j h. elim (Bool-cases (esi == j)) [
          | inl same ↦
              let at_j : esi ≡ j = ground arith in
              subst (λ i. contains i d'.received_esis ≡ true) at_j (rest.2 esi here)
          | inr other ↦ listed j (ground arith)
        ])
      ]
    ],
    (λ all.
        let still = takes.4 all in
        rest.4 (subst (λ c. is_complete p c ≡ true) (sym still) all) ∙ still),
  )

  pub feed-Fed :
      (enc : FountainEncoder p) (esis : List ℕ) (d d' : FountainDecoder p)
      → Peeled d
      → feed p enc esis d ≡ some d'
      → Fed d esis d'
  unfolding feed contains
  feed-Fed enc [] d d' peeled fed =
      let same : d ≡ d' = ap (λ r. elim r [ none ↦ d | some c ↦ c ]) fed in
      subst (Fed d []) same (peeled, (λ j h. h), (λ j h. h), inr (λ j h. cc), (λ done. refl))
  feed-Fed enc (esi ∷ esis) d d' peeled fed =
      let (symbol, encoded, e1) = >>=-eq-some (encode_symbol p enc esi) _ fed in
      let ((d1, done), added, e2) = >>=-eq-some (add_symbol p d symbol) _ e1 in
      let esi_same : symbol.esi ≡ esi = encode_symbol-esi p enc esi symbol encoded in
      let takes = subst (Takes d symbol.esi) added (add_symbol-Takes d symbol peeled) in
      let here = subst (λ i. Takes d i (some (d1, done))) esi_same takes in
      Fed-cons d d1 d' esi done esis here (feed-Fed enc esis d1 d' here.0 e2)
