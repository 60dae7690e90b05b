-- ===== src/Decoder/Peeling/Arrival.antt =====
-- One more equation: `admit` and the ripple, against what can be peeled with it.
use orbit_transfer.Prelude.{
  ℕ, zero, suc, ◌+◌, ◌≡◌, ◌⊎◌, inl, inr, true, List, [], ◌∷◌, ◌++◌, ◌||◌, Option, none, some, arith,
  ◌==◌, Bool-cases, refl, ◌>>=◌, All, All-append, get_elem?, length,
}
use orbit_transfer.Prelude.Sorted.{contains}
use orbit_transfer.Prelude.Members.{contains-append}
use orbit_transfer.Platform.{Platform}
use orbit_transfer.Decoder.{
  ActiveEquation, Graph, FountainDecoder, Resolved, has, slot_at, cancel, admit, add_equation,
  index_slot, ripple, absorb,
}
use orbit_transfer.Decoder.Peeling.{
  Peels, peel, Peels-mono, Two, SlotFrom, Sound, Held, Stable, has-Peels,
}
use orbit_transfer.Decoder.Peeling.Settle.{Kept-move}
use orbit_transfer.Decoder.Peeling.Ripple.{Settled, Ended, ripple-Ended}
use orbit_transfer.Decoder.Peeling.Cancel.{Remains, Joins, cancel-Joins, Joins-Remains}

module _ (old new : List ℕ → Type 0) (grow : (m : List ℕ) → old m → new m) where
  All-grow : (m : Resolved) → All (λ e. Peels old e.0) m → All (λ e. Peels new e.0) m
  All-grow [] a = tt
  All-grow (e ∷ m) a = (Peels-mono old new grow a.0, All-grow m a.1)

  slots-grow : (es : List (Option ActiveEquation)) → All (SlotFrom old) es → All (SlotFrom new) es
  slots-grow [] a = tt
  slots-grow (none ∷ es) a = (tt, slots-grow es a.1)
  slots-grow (some eq ∷ es) ((m, e, inside, covers), a) = (
    (
      m,
      grow m e,
      inside,
      λ j h. elim (covers j h) [
        | inl here ↦ inl here
        | inr peels ↦ inr (Peels-mono old new grow peels)
      ],
    ),
    slots-grow es a,
  )

  pub Sound-grow : (g : Graph) → Sound old g → Sound new g
  Sound-grow g sound = record {
    resolved = All-grow g.resolved sound.resolved;
    slots = slots-grow g.active_equations sound.slots;
  }

module _ (old new : List ℕ → Type 0) (ns : List ℕ) (grow : (m : List ℕ) → old m → new m)
    (fresh : new ns) (only : (m : List ℕ) → new m → old m ⊎ (m ≡ ns)) where
  -- The new equation is held, and the old ones are held as before.
  Stable-grow :
      (live live' : ℕ → List ℕ) (queue queue' : List ℕ) (g g' : Graph)
      → Stable old live queue g
      → ((m : List ℕ) → Held live queue g m → Held live' queue' g' m)
      → Held live' queue' g' ns
      → Stable new live' queue' g'
  Stable-grow live live' queue queue' g g' stable move here m e = elim (only m e) [
    | inl before ↦ move m (stable m before)
    | inr same ↦ rw same here
  ]

  slot_at-snoc :
      (g : Graph) (e : ActiveEquation) (rev : ℕ → List ℕ) (slot : ℕ) (eq : ActiveEquation)
      → slot_at g slot ≡ some eq
      → slot_at (record g { active_equations = g.active_equations ++ some e ∷ []; rev = rev }) slot
        ≡ some eq
  unfolding slot_at
  slot_at-snoc g e rev slot eq = go g.active_equations slot
    where
      go :
          (es : List (Option ActiveEquation)) (i : ℕ)
          → (elim (get_elem? es i) [ none ↦ none | some e ↦ e ]) ≡ some eq
          → (elim (get_elem? (es ++ some e ∷ []) i) [ none ↦ none | some e ↦ e ]) ≡ some eq
      go [] i h = cc
      go (x ∷ es) zero h = h
      go (x ∷ es) (suc i) h = go es i h

  slot_at-last :
      (g : Graph) (e : ActiveEquation) (rev : ℕ → List ℕ)
      → slot_at
          (record g { active_equations = g.active_equations ++ some e ∷ []; rev = rev })
          (length g.active_equations)
        ≡ some e
  unfolding slot_at
  slot_at-last g e rev = go g.active_equations
    where
      go :
          (es : List (Option ActiveEquation))
          → (elim (get_elem? (es ++ some e ∷ []) (length es)) [ none ↦ none | some e ↦ e ]) ≡ some e
      go [] = refl
      go (x ∷ es) = go es

  index_slot-keeps :
      (slot slot' j : ℕ) (unknown : List ℕ) (rev : ℕ → List ℕ)
      → contains slot' (rev j) ≡ true
      → contains slot' (index_slot slot unknown rev j) ≡ true
  unfolding index_slot
  index_slot-keeps slot slot' j unknown rev h =
      ground (arith, contains-append slot' (rev j) (slot ∷ []))

  index_slot-new :
      (slot j : ℕ) (unknown : List ℕ) (rev : ℕ → List ℕ)
      → contains j unknown ≡ true
      → contains slot (index_slot slot unknown rev j) ≡ true
  unfolding index_slot contains
  index_slot-new slot j unknown rev h = ground (arith, contains-append slot (rev j) (slot ∷ []))

  -- An equation that keeps two open inputs waits in a slot of its own.
  pub add_equation-Settled :
      (g : Graph) (block unknown : List ℕ)
      → Remains g.resolved ns unknown
      → Two unknown
      → Settled old [] g
      → Settled new [] (add_equation block unknown g)
  unfolding add_equation
  add_equation-Settled g block unknown remains two (stable, sound) = (
    Stable-grow g.rev _ [] [] g _ stable
        (λ m held. elim held [
          | inl all ↦ inl all
          | inr (slot, eq, kept) ↦ inr (
            slot,
            eq,
            Kept-move g.rev _ [] [] g _ m slot eq kept (slot_at-snoc g _ _ slot eq kept.found)
                (λ j h. h) (λ j h. inl h)
                (λ j h live. (
                  index_slot-keeps (length g.active_equations) slot j unknown g.rev live,
                  λ waits. waits,
                )),
          )
        ])
        (inr (
          length g.active_equations,
          record { block = block; neighbors = unknown },
          record {
            found = slot_at-last g _ _;
            distinct = remains.distinct;
            inside = remains.inside;
            covers = remains.covers;
            indexed = λ j h. index_slot-new (length g.active_equations) j unknown g.rev h;
            queued = λ j h known. let free = remains.open_ j h in cc;
            wide = inl two;
          },
        )),
    record {
      resolved = All-grow old new grow g.resolved sound.resolved;
      slots =
          All-append _ g.active_equations _ (slots-grow old new grow g.active_equations sound.slots)
            (
              (
                ns,
                fresh,
                remains.inside,
                λ j h. elim (remains.covers j h) [
                  | inl here ↦ inl here
                  | inr known ↦
                      inr
                        (Peels-mono old new grow (has-Peels old j g.resolved sound.resolved known))
                ],
              ),
              tt,
            );
    },
  )

  -- An equation with one open input resolves it.
  resolve-Settled :
      (g : Graph) (block : List ℕ) (n : ℕ)
      → Remains g.resolved ns (n ∷ [])
      → Settled old [] g
      → Settled new (n ∷ []) (record g { resolved = (n, block) ∷ g.resolved })
  unfolding contains has slot_at
  resolve-Settled g block n remains (stable, sound) = (
    Stable-grow g.rev g.rev [] (n ∷ []) g _ stable
        (λ m held. elim held [
          | inl all ↦ inl (λ j h. later j (all j h))
          | inr (slot, eq, kept) ↦ inr (
            slot,
            eq,
            Kept-move g.rev g.rev [] (n ∷ []) g _ m slot eq kept kept.found later back
                (λ j h live. (live, λ waits. cc)),
          )
        ])
        (inl (λ j h. elim (remains.covers j h) [
          | inl here ↦ ground arith
          | inr known ↦ later j known
        ])),
    record {
      resolved = (solved, All-grow old new grow g.resolved sound.resolved);
      slots = slots-grow old new grow g.active_equations sound.slots;
    },
  )
    where
      later : (j : ℕ) → has j g.resolved ≡ true → (n == j) || has j g.resolved ≡ true
      later j h = ground arith

      back :
          (j : ℕ)
          → (n == j) || has j g.resolved ≡ true
          → (has j g.resolved ≡ true) ⊎ (contains j (n ∷ []) ≡ true)
      back j h = elim (Bool-cases (has j g.resolved)) [
        | inl old_ ↦ inl old_
        | inr new_ ↦ inr (ground arith)
      ]

      solved : Peels new n
      solved = peel ns n fresh (remains.inside n (ground arith)) (λ j h ne.
          elim (remains.covers j h) [
            | inl here ↦ absurd (ground arith)
            | inr known ↦ Peels-mono old new grow (has-Peels old j g.resolved sound.resolved known)
          ])

  admit-Settled :
      (g : Graph) (block unknown : List ℕ)
      → Remains g.resolved ns unknown
      → Settled old [] g
      → Settled new (admit g block unknown).1 (admit g block unknown).0
  unfolding admit contains has
  admit-Settled g block [] remains (stable, sound) = (
    Stable-grow g.rev g.rev [] [] g g stable (λ m held. held)
        (inl (λ j h. elim (remains.covers j h) [ inl here ↦ cc | inr known ↦ known ])),
    Sound-grow old new grow g sound,
  )
  admit-Settled g block (n ∷ []) remains settled = resolve-Settled g block n remains settled
  admit-Settled g block (n ∷ m ∷ unknown) remains settled =
      let once = remains.distinct.0 in
      add_equation-Settled g block (n ∷ m ∷ unknown) remains
        (n, m, ground arith, ground arith, ground arith) settled

  -- The graph that a symbol with the neighbours `ns` leaves keeps to what can be peeled with it.
  pub absorb-Ended :
      (p : Platform) (d : FountainDecoder p) (block : List ℕ)
      → Settled old [] d.graph
      → Ended new (absorb p d block ns)
  unfolding absorb
  absorb-Ended p d block settled =
      go (cancel d.graph.resolved ns block []) (cancel-Joins d.graph.resolved ns block [] tt)
    where
      go :
          (r : Option (List ℕ × List ℕ))
          → Joins d.graph.resolved ns [] r
          → Ended new (
              r >>= λ (left, unknown).
              ripple (d.l + 1) (admit d.graph left unknown).0 (admit d.graph left unknown).1)
      go none joins = tt
      go (some (left, unknown)) joins =
          let remains = Joins-Remains d.graph.resolved ns left left unknown joins in
          ripple-Ended new (d.l + 1) (admit d.graph left unknown).0 (admit d.graph left unknown).1
            (admit-Settled d.graph left unknown remains settled)
