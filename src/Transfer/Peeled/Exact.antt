-- ===== src/Transfer/Peeled/Exact.antt =====
-- The decoder resolves exactly what can be peeled, in whatever order the symbols come.
use orbit_transfer.Prelude.{
  ℕ, zero, suc, ◌+◌, ◌<◌, ◌≡◌, ◌↔◌, inl, inr, Bool, true, false, ◌||◌, List, [], ◌∷◌, some, arith,
  refl, sym, ap₂, subst, ◌∙◌, length, leb, Bool-cases, if◌then◌else◌,
}
use orbit_transfer.Prelude.Le.{IsBytes}
use orbit_transfer.Prelude.Sorted.{contains}
use orbit_transfer.Platform.{Platform, DrawsInRange}
use orbit_transfer.Encoder
use orbit_transfer.Encoder.{EncodedSymbol, FountainEncoder, encode_symbol}
use orbit_transfer.Encoder.Symbols.{symbol_count-covers}
use orbit_transfer.Decoder
use orbit_transfer.Decoder.{
  Graph, FountainDecoder, Resolved, has, err, incomplete, is_complete, reconstruct, absorb,
  add_fresh, add_symbol,
}
use orbit_transfer.Decoder.Unresolved.{unresolved, unresolved_none}
use orbit_transfer.Decoder.Peeling.{Peels, Peels-mono, has-Peels, Peels-has}
use orbit_transfer.Decoder.Peeling.Ripple.{Settled}
use orbit_transfer.Decoder.Peeling.Arrival.{Sound-grow}
use orbit_transfer.Decoder.Peeling.Opened.{new-Settled}
use orbit_transfer.Transfer.Lossless.{
  Encodes, Follows, kept, start, feed-Follows, complete-reconstruct,
}
use orbit_transfer.Transfer.Complete.{new-received}
use orbit_transfer.Transfer.Encoded.{Encoded}
use orbit_transfer.Transfer.{feed}
use orbit_transfer.Transfer.Peeled.{Equation, Equation-mono, Peeled, feed-Fed}

not_in_nil : (j : ℕ) (xs : List ℕ) → xs ≡ [] → contains j xs ≡ false
unfolding contains
not_in_nil j [] e = refl
not_in_nil j (x ∷ xs) e = cc

module _ (p : Platform) (in_range : DrawsInRange p) (payload : List ℕ) (size : ℕ)
    (enc : FountainEncoder p) (bytes : IsBytes payload)
    (made : Encoder.new p payload size ≡ some enc) (d : FountainDecoder p)
    (new_d : Decoder.new p enc.payload_len enc.symbol_size enc.k enc.checksum ≡ some d) where
  abbrev Gives : List ℕ → ℕ → Type 0
  Gives esis = Peels (Equation p enc.k enc.sampler esis)

  opened-Peeled : Peeled p enc.k enc.sampler d
  opened-Peeled =
      let some_source =
        subst (λ n. 0 < n) (sym known.count)
          (symbol_count-covers (length payload) size known.some_size).1 in
      let (settled, empty) =
        new-Settled p enc.payload_len enc.symbol_size enc.k enc.checksum d some_source new_d in
      let none_yet = new-received p enc.payload_len enc.symbol_size enc.k enc.checksum d new_d in
      (
        subst (λ esis. Settled (Equation p enc.k enc.sampler esis) [] d.graph) (sym none_yet)
            (
              (λ ns e. elim e [
                | inl check ↦ settled.0 ns check
                | inr (esi, degree, member, drawn) ↦ let none_esi = not_in_nil esi [] refl in cc
              ]),
              Sound-grow _ (Equation p enc.k enc.sampler []) (λ m check. inl check) d.graph
                  settled.1,
            ),
        (start p in_range payload size enc bytes made d new_d []).sampler,
      )
    where
      known : Encoded p payload size enc
      known = kept p in_range payload size enc bytes made

  complete-has :
      (d' : FountainDecoder p) (i : ℕ)
      → Follows p in_range payload size enc bytes made d'
      → is_complete p d' ≡ true
      → i < d'.l
      → has i d'.graph.resolved ≡ true
  unfolding is_complete
  complete-has d' i f done inside =
      unresolved_none d'.l i d'.graph.resolved (ground (arith, f.inv.graph_inv.counted)) inside

  only_listed :
      (esis : List ℕ) (j : ℕ)
      → contains j esis || contains j d.received_esis ≡ true
      → contains j esis ≡ true
  only_listed esis j member =
      let none_yet = new-received p enc.payload_len enc.symbol_size enc.k enc.checksum d new_d in
      let none_j = not_in_nil j d.received_esis none_yet in ground arith

  feed-Gives :
      (esis : List ℕ)
      → Encodes p enc esis
      → (d' : FountainDecoder p) × (feed p enc esis d ≡ some d')
        × Follows p in_range payload size enc bytes made d'
        × ((i : ℕ) → i < d.l → (has i d'.graph.resolved ≡ true) ↔ Gives esis i)
  feed-Gives esis h =
      let f0 = start p in_range payload size enc bytes made d new_d esis in
      let (d', fed, f) = feed-Follows p in_range payload size enc bytes made esis d f0 h in
      let all = feed-Fed p enc.k enc.sampler enc esis d d' opened-Peeled fed in
      (
        d',
        fed,
        f,
        λ i inside. (
          (λ known.
              Peels-mono _ (Equation p enc.k enc.sampler esis)
                (Equation-mono p enc.k enc.sampler d'.received_esis esis
                  (λ j member. only_listed esis j (all.1 j member)))
                (has-Peels _ i d'.graph.resolved ((all.0).0.1).resolved known)),
          (λ peels. elim all.3 [
            | inl done ↦ complete-has d' i f done (omega (arith, f.l, f0.l))
            | inr listed ↦
                Peels-has (Equation p enc.k enc.sampler d'.received_esis) d'.graph.rev d'.graph
                  ((all.0).0.0)
                  (Peels-mono _ _ (Equation-mono p enc.k enc.sampler esis d'.received_esis listed)
                    peels)
          ]),
        ),
      )

  -- A decoder that was opened from what the encoder of a payload of bytes announces, and takes the
  -- encoder's symbols of a list of ids, in any order, with any loss and any repetition, resolves
  -- exactly the inputs that can be peeled from the equations of the checks and of these symbols.
  -- The random draws are in range and those of the listed ids end.
  pub feed_peels :
      (esis : List ℕ)
      → Encodes p enc esis
      → (d' : FountainDecoder p) × (feed p enc esis d ≡ some d')
        × ((i : ℕ) → i < d.l → (has i d'.graph.resolved ≡ true) ↔ Gives esis i)
  feed_peels esis h = let (d', fed, f, exact) = feed-Gives esis h in (d', fed, exact)

  unresolved-same :
      (l : ℕ) (m m' : Resolved)
      → ((i : ℕ) → i < l → has i m ≡ has i m')
      → unresolved l m ≡ unresolved l m'
  unfolding unresolved
  unresolved-same zero m m' same = refl
  unresolved-same (suc l) m m' same =
      let rest = unresolved-same l m m' (λ i lt. same i (omega arith)) in
      ap₂ (λ b n. (if b then 0 else 1) + n) (same l (omega arith)) rest

  reconstruct-part :
      (d0 : FountainDecoder p)
      → is_complete p d0 ≡ false
      → reconstruct p d0 ≡ some (err (incomplete (length d0.graph.resolved) d0.l))
  unfolding reconstruct
  reconstruct-part d0 part = rw part refl

  -- The outcome is that of the count of resolved inputs.
  reconstruct-same :
      (d1 d2 : FountainDecoder p)
      → Follows p in_range payload size enc bytes made d1
      → Follows p in_range payload size enc bytes made d2
      → length d1.graph.resolved ≡ length d2.graph.resolved
      → (is_complete p d1 ≡ is_complete p d2) × (reconstruct p d1 ≡ reconstruct p d2)
  unfolding is_complete
  reconstruct-same d1 d2 f1 f2 same =
      let same_l = f1.l ∙ sym f2.l in
      let both : is_complete p d1 ≡ is_complete p d2 = ap₂ leb same_l same in
      (
        both,
        elim (Bool-cases (is_complete p d1)) [
          | inl all ↦
              complete-reconstruct p in_range payload size enc bytes made d1 f1 all
              ∙ sym (
                  complete-reconstruct p in_range payload size enc bytes made d2 f2
                    (sym both ∙ all))
          | inr part ↦
              reconstruct-part d1 part
              ∙ ap₂ (λ n l. some (err (incomplete n l))) same same_l
              ∙ sym (reconstruct-part d2 (sym both ∙ part))
        ],
      )

  -- Two lists of ids with the same elements leave decoders that agree: the order in which the symbols
  -- come, and how often each comes, never matters for which inputs are resolved, for completion or for
  -- what is reconstructed. The random draws are in range and those of the listed ids end.
  pub feed_same :
      (esis esis' : List ℕ)
      → Encodes p enc esis
      → Encodes p enc esis'
      → ((esi : ℕ) → contains esi esis ≡ contains esi esis')
      → (d1 : FountainDecoder p) × (d2 : FountainDecoder p) × (feed p enc esis d ≡ some d1)
        × (feed p enc esis' d ≡ some d2)
        × ((i : ℕ) → i < d.l → has i d1.graph.resolved ≡ has i d2.graph.resolved)
        × (is_complete p d1 ≡ is_complete p d2)
        × (reconstruct p d1 ≡ reconstruct p d2)
  feed_same esis esis' h h' same =
      let (d1, fed1, f1, exact1) = feed-Gives esis h in
      let (d2, fed2, f2, exact2) = feed-Gives esis' h' in
      let f0 = start p in_range payload size enc bytes made d new_d [] in
      let agree : (i : ℕ) → i < d.l → has i d1.graph.resolved ≡ has i d2.graph.resolved = λ i lt.
        both_ways (has i d1.graph.resolved) (has i d2.graph.resolved)
          (λ known.
            (exact2 i lt).1 (over esis esis' (λ j m. sym (same j) ∙ m) i ((exact1 i lt).0 known)))
          (λ known.
            (exact1 i lt).1 (over esis' esis (λ j m. same j ∙ m) i ((exact2 i lt).0 known))) in
      let count = unresolved-same d.l d1.graph.resolved d2.graph.resolved agree in
      let c1 =
        subst (λ n. length d1.graph.resolved + unresolved n d1.graph.resolved ≡ n) (f1.l ∙ sym f0.l)
          f1.inv.graph_inv.counted in
      let c2 =
        subst (λ n. length d2.graph.resolved + unresolved n d2.graph.resolved ≡ n) (f2.l ∙ sym f0.l)
          f2.inv.graph_inv.counted in
      let ending = reconstruct-same d1 d2 f1 f2 (omega (arith, c1, c2, count)) in
      (d1, d2, fed1, fed2, agree, ending.0, ending.1)
    where
      over :
          (xs ys : List ℕ)
          → ((j : ℕ) → contains j xs ≡ true → contains j ys ≡ true)
          → (i : ℕ) → Gives xs i
          → Gives ys i
      over xs ys more i gives =
          Peels-mono _ (Equation p enc.k enc.sampler ys)
            (Equation-mono p enc.k enc.sampler xs ys more) gives

      both_ways : (a b : Bool) → (a ≡ true → b ≡ true) → (b ≡ true → a ≡ true) → a ≡ b
      both_ways true b f g = sym (f refl)
      both_ways false true f g = g refl
      both_ways false false f g = refl
