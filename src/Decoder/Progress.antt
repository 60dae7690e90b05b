-- ===== src/Decoder/Progress.antt =====
-- What the decoder resolves it keeps, and a symbol of an id below `l` resolves that input.
pub mod Complete
use orbit_transfer.Prelude.{
  ℕ, zero, suc, ◌+◌, ◌≤◌, ◌<◌, ◌≡◌, refl, sym, ap, subst, ◌∙◌, ◌⊎◌, inl, inr, Bool, true, false,
  ◌||◌, List, [], ◌∷◌, ◌++◌, Option, none, some, arith, leb, ltb, lt→ltb, le→leb, ◌==◌,
  if◌then◌else◌, length, Bool-cases, Option-cases, ◌>>=◌, >>=-eq-some,
}
use orbit_transfer.Prelude.Sorted.{contains, remove, add}
use orbit_transfer.Platform.{Platform}
use orbit_transfer.Simd.{xor_inplace}
use orbit_transfer.Soliton.{get_neighbors}
use orbit_transfer.Encoder.{EncodedSymbol}
use orbit_transfer.Decoder.Unresolved.{unresolved, lookup-has-none}
use orbit_transfer.Decoder.{
  Graph, FountainDecoder, ActiveEquation, Resolved, has, lookup, settle, slot_at, process_equation,
  process_slot, process_slots, drop_key, ripple_step, ripple, cancel, admit, add_equation,
  is_complete, absorb, add_fresh, add_symbol,
}

-- Every input that is resolved in the one is resolved in the other.
abbrev pub Extends : Resolved → Resolved → Type 0
Extends m m' = (i : ℕ) → has i m ≡ true → has i m' ≡ true

-- The same of a graph that a step returns, where it returns one.
abbrev Grows : Resolved → Option (Graph × List ℕ) → Type 0
Grows m none = Unit {0}
Grows m (some (g', queue)) = Extends m g'.resolved

abbrev pub GrowsTo : Resolved → Option Graph → Type 0
GrowsTo m none = Unit {0}
GrowsTo m (some g') = Extends m g'.resolved

pub lookup-some-has : (i : ℕ) (m : Resolved) (b : List ℕ) → lookup i m ≡ some b → has i m ≡ true
unfolding lookup has
lookup-some-has i [] b h = cc
lookup-some-has i ((j, c) ∷ m) b h = ground (arith, lookup-some-has i m b)

pub settle-Extends :
    (g : Graph) (slot : ℕ) (block ns : List ℕ)
    → Extends g.resolved (settle g slot block ns).0.resolved
unfolding settle has
settle-Extends g slot block [] i h = h
settle-Extends g slot block (n ∷ []) i h = ground arith
settle-Extends g slot block (n ∷ m ∷ ns) i h = h

process_slot-Grows :
    (g : Graph) (slot idx : ℕ) (block : List ℕ) → Grows g.resolved (process_slot g slot idx block)
unfolding process_slot process_equation
process_slot-Grows g slot idx block = on_slot (slot_at g slot)
  where
    on_xor :
        (eq : ActiveEquation) (r : Option (List ℕ))
        → Grows g.resolved
            (r >>= λ combined. some (settle g slot combined (remove idx eq.neighbors)))
    on_xor eq none = tt
    on_xor eq (some combined) = settle-Extends g slot combined (remove idx eq.neighbors)

    on_test :
        (eq : ActiveEquation) (b : Bool)
        → Grows g.resolved (
            if b
            then (xor_inplace eq.block block >>= λ combined.
                some (settle g slot combined (remove idx eq.neighbors)))
            else some (g, []))
    on_test eq true = on_xor eq (xor_inplace eq.block block)
    on_test eq false = λ i h. h

    on_slot :
        (s : Option ActiveEquation)
        → Grows g.resolved (elim s as (λ _. Option (Graph × List ℕ)) [
          | none ↦ some (g, [])
          | some eq ↦ process_equation g slot idx block eq
        ])
    on_slot none = λ i h. h
    on_slot (some eq) = on_test eq (contains idx eq.neighbors)

Grows-trans :
    (m m' : Resolved) (r : Option (Graph × List ℕ)) → Extends m m' → Grows m' r → Grows m r
Grows-trans m m' none e s = tt
Grows-trans m m' (some (g', queue)) e s = λ i h. s i (e i h)

GrowsTo-trans : (m m' : Resolved) (r : Option Graph) → Extends m m' → GrowsTo m' r → GrowsTo m r
GrowsTo-trans m m' none e s = tt
GrowsTo-trans m m' (some g') e s = λ i h. s i (e i h)

process_slots-Grows :
    (g : Graph) (slots : List ℕ) (idx : ℕ) (block queue : List ℕ)
    → Grows g.resolved (process_slots g slots idx block queue)
unfolding process_slots
process_slots-Grows g [] idx block queue = λ i h. h
process_slots-Grows g (slot ∷ slots) idx block queue =
    go (process_slot g slot idx block) (process_slot-Grows g slot idx block)
      (λ g' queue'. process_slots-Grows g' slots idx block queue')
  where
    go :
        (r : Option (Graph × List ℕ))
        → Grows g.resolved r
        → ((g' : Graph) (queue' : List ℕ)
            → Grows g'.resolved (process_slots g' slots idx block queue'))
        → Grows g.resolved
            (r >>= λ (g', pushed). process_slots g' slots idx block (queue ++ pushed))
    go none s rest = tt
    go (some (g', pushed)) s rest =
        Grows-trans g.resolved g'.resolved _ s (rest g' (queue ++ pushed))

ripple_step-Grows :
    (g : Graph) (idx : ℕ) (queue : List ℕ) → Grows g.resolved (ripple_step g idx queue)
unfolding ripple_step
ripple_step-Grows g idx queue = go (lookup idx g.resolved)
  where
    go :
        (r : Option (List ℕ))
        → Grows g.resolved (
            r >>= λ block.
            process_slots (record g { rev = drop_key idx g.rev }) (g.rev idx) idx block queue)
    go none = tt
    go (some block) =
        process_slots-Grows (record g { rev = drop_key idx g.rev }) (g.rev idx) idx block queue

ripple-GrowsTo : (fuel : ℕ) (g : Graph) (queue : List ℕ) → GrowsTo g.resolved (ripple fuel g queue)
unfolding ripple
ripple-GrowsTo zero g [] = λ i h. h
ripple-GrowsTo (suc fuel) g [] = λ i h. h
ripple-GrowsTo zero g (idx ∷ queue) = tt
ripple-GrowsTo (suc fuel) g (idx ∷ queue) =
    go (ripple_step g idx queue) (ripple_step-Grows g idx queue)
      (λ g' queue'. ripple-GrowsTo fuel g' queue')
  where
    go :
        (r : Option (Graph × List ℕ))
        → Grows g.resolved r
        → ((g' : Graph) (queue' : List ℕ) → GrowsTo g'.resolved (ripple fuel g' queue'))
        → GrowsTo g.resolved (r >>= λ (g', queue'). ripple fuel g' queue')
    go none s rest = tt
    go (some (g', queue')) s rest = GrowsTo-trans g.resolved g'.resolved _ s (rest g' queue')

pub admit-Extends :
    (g : Graph) (block ns : List ℕ) → Extends g.resolved (admit g block ns).0.resolved
unfolding admit add_equation has
admit-Extends g block [] i h = h
admit-Extends g block (n ∷ []) i h = ground arith
admit-Extends g block (n ∷ m ∷ ns) i h = h

-- The one neighbour of a symbol is resolved by it.
unfoldable pub Resolves : ℕ → Option Graph → Type 0
Resolves i none = Unit {0}
Resolves i (some g) = has i g.resolved ≡ true

GrowsTo-Resolves :
    (m : Resolved) (r : Option Graph) (i : ℕ) → GrowsTo m r → has i m ≡ true → Resolves i r
unfolding Resolves
GrowsTo-Resolves m none i g h = tt
GrowsTo-Resolves m (some g') i g h = g i h

module _ (p : Platform) where
  pub absorb-GrowsTo :
      (d : FountainDecoder p) (block ns : List ℕ) → GrowsTo d.graph.resolved (absorb p d block ns)
  unfolding absorb
  absorb-GrowsTo d block ns = go (cancel d.graph.resolved ns block [])
    where
      go :
          (r : Option (List ℕ × List ℕ))
          → GrowsTo d.graph.resolved (
              r >>= λ (left, unknown).
              ripple (d.l + 1) (admit d.graph left unknown).0 (admit d.graph left unknown).1)
      go none = tt
      go (some (left, unknown)) =
          GrowsTo-trans d.graph.resolved (admit d.graph left unknown).0.resolved _
            (admit-Extends d.graph left unknown)
            (ripple-GrowsTo (d.l + 1) (admit d.graph left unknown).0 (admit d.graph left unknown).1)

  pub absorb-Resolves :
      (d : FountainDecoder p) (block : List ℕ) (i : ℕ) → Resolves i (absorb p d block (i ∷ []))
  absorb-Resolves d block i = elim (Option-cases (lookup i d.graph.resolved)) [
    | inl open_ ↦
        let alone : cancel d.graph.resolved (i ∷ []) block [] ≡ some (block, i ∷ []) =
          unfold cancel add contains in rw (open_, cancel) refl in
        let started : Graph = record d.graph { resolved = (i, block) ∷ d.graph.resolved } in
        let ripples : absorb p d block (i ∷ []) ≡ ripple (d.l + 1) started (i ∷ []) =
          unfold absorb admit in
          ap
            (λ r. r >>= λ (left, unknown).
              ripple (d.l + 1) (admit d.graph left unknown).0 (admit d.graph left unknown).1)
            alone in
        subst (Resolves i) (sym ripples) (
          GrowsTo-Resolves started.resolved _ i (ripple-GrowsTo (d.l + 1) started (i ∷ []))
            (unfold has in ground arith))
    | inr (known, found) ↦
        GrowsTo-Resolves d.graph.resolved _ i (absorb-GrowsTo d block (i ∷ []))
          (lookup-some-has i d.graph.resolved known found)
  ]
