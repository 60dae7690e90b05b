-- ===== src/Decoder/Symbols.antt =====
-- A symbol that arrives: the known neighbours are cancelled, what is left is solved or kept, and
-- the ripple runs to its end.
use orbit_transfer.Prelude.{
  ℕ, ◌+◌, ◌<◌, ◌≡◌, refl, sym, ap, subst, ◌∙◌, false, List, [], ◌∷◌, Option, none, some, arith,
  length, All, All-append, inl, inr, Option-cases, ◌>>=◌,
}
use orbit_transfer.Prelude.Sorted.{contains, add, add-All, Distinct, contains-add}
use orbit_transfer.Simd.{xor_bytes}
use orbit_transfer.Simd.Laws.{xor_bytes_comm, xor_bytes_assoc}
use orbit_transfer.Platform.{Platform}
use orbit_transfer.Simd.Blocks.{
  IsBlock, xor_all, xor_all-IsBlock, xor_all-one, xor_all-add, xor_inplace-IsBlock, xor_cancel,
  xor_bytes-IsBlock, xor_zero_right,
}
use orbit_transfer.Decoder.Unresolved.{unresolved, unresolved-insert, lookup-has-none}
use orbit_transfer.Decoder.Invariant.{GraphInv, Queued}
use orbit_transfer.Decoder.Invariant.Steps.{
  Settled, Settled-weaken, ripple-Settled, lookup-IsTrue, has_self,
}
use orbit_transfer.Decoder.{
  Graph, Resolved, FountainDecoder, lookup, has, cancel, admit, add_equation, ripple, absorb,
}

-- None of `ns` is in `unknown`.
abbrev pub Apart : List ℕ → List ℕ → Type 0
Apart unknown = All (λ m. contains m unknown ≡ false)

Apart-nil : (ns : List ℕ) → Apart [] ns
unfolding contains
Apart-nil [] = tt
Apart-nil (n ∷ ns) = (refl, Apart-nil ns)

Apart-add :
    (n : ℕ) (unknown ns : List ℕ)
    → contains n ns ≡ false
    → Apart unknown ns
    → Apart (add n unknown) ns
unfolding contains
Apart-add n unknown [] h a = tt
Apart-add n unknown (m ∷ ns) h a =
    (ground (arith, contains-add n m unknown, a.0), Apart-add n unknown ns (ground arith) a.1)

abbrev pub Open : Resolved → List ℕ → Type 0
Open resolved = All (λ i. has i resolved ≡ false)

module _ (size : ℕ) (truth : ℕ → List ℕ) (fits : (i : ℕ) → IsBlock size (truth i)) (l : ℕ)
    (resolved : Resolved) (solved : All (λ e. e.1 ≡ truth e.0) resolved) where
  -- The equation that is left holds of inputs that are all open.
  abbrev pub Cancelled : Option (List ℕ × List ℕ) → Type 0
  Cancelled none = ⊥
  Cancelled (some (block, unknown)) =
      (block ≡ xor_all size truth unknown) × All (λ i. i < l) unknown × Open resolved unknown

  abbrev sum : List ℕ → List ℕ
  sum = xor_all size truth

  sum_drop :
      (n : ℕ) (unknown ns : List ℕ)
      → xor_bytes (xor_bytes (sum unknown) (xor_bytes (truth n) (sum ns))) (truth n)
        ≡ xor_bytes (sum unknown) (sum ns)
  sum_drop n unknown ns =
      ap (λ t. xor_bytes (xor_bytes (sum unknown) t) (truth n)) (xor_bytes_comm (truth n) (sum ns))
      ∙ ap (λ t. xor_bytes t (truth n)) (sym (xor_bytes_assoc (sum unknown) (sum ns) (truth n)))
      ∙ xor_cancel size (xor_bytes (sum unknown) (sum ns)) (truth n)
          (xor_bytes-IsBlock size (sum unknown) (sum ns) (xor_all-IsBlock size truth fits unknown)
            (xor_all-IsBlock size truth fits ns))
          (fits n)

  cancel-Cancelled :
      (ns : List ℕ) (block unknown : List ℕ)
      → Distinct ns
      → Apart unknown ns
      → All (λ i. i < l) ns
      → All (λ i. i < l) unknown
      → Open resolved unknown
      → block ≡ xor_bytes (sum unknown) (sum ns)
      → Cancelled (cancel resolved ns block unknown)
  unfolding cancel xor_all
  cancel-Cancelled [] block unknown d a b u o e =
      (e ∙ xor_zero_right size (sum unknown) (xor_all-IsBlock size truth fits unknown), u, o)
  cancel-Cancelled (n ∷ ns) block unknown d a b u o e = elim (Option-cases (lookup n resolved)) [
    | inl open_ ↦
        rw (open_, Cancelled)
          (cancel-Cancelled ns block (add n unknown) d.1 (Apart-add n unknown ns d.0 a.1) b.1
            (add-All _ n unknown b.0 u) (add-All _ n unknown (lookup-has-none n resolved open_) o)
            (e
              ∙ sym (xor_bytes_assoc (sum unknown) (truth n) (sum ns))
              ∙ ap (λ t. xor_bytes t (sum ns)) (sym (xor_all-add size truth fits n unknown a.0))))
    | inr (known, found) ↦
        let is_true = lookup-IsTrue truth n resolved solved found in
        let xor =
          xor_inplace-IsBlock size block (truth n)
            (subst (IsBlock size) (sym e) (
              xor_bytes-IsBlock size (sum unknown) (sum (n ∷ ns))
                (xor_all-IsBlock size truth fits unknown)
                (xor_all-IsBlock size truth fits (n ∷ ns))))
            (fits n) in
        rw (found, is_true, xor, Cancelled)
          (cancel-Cancelled ns (xor_bytes block (truth n)) unknown d.1 a.1 b.1 u o
            (ap (λ t. xor_bytes t (truth n)) e ∙ sum_drop n unknown ns))
  ]

module _ (size : ℕ) (truth : ℕ → List ℕ) (fits : (i : ℕ) → IsBlock size (truth i)) (l : ℕ) where
  pub add_equation-GraphInv :
      (g : Graph) (block ns : List ℕ)
      → GraphInv size truth l g
      → block ≡ xor_all size truth ns
      → All (λ i. i < l) ns
      → GraphInv size truth l (add_equation block ns g)
  unfolding add_equation
  add_equation-GraphInv g block ns v e b = record {
    solved = v.solved;
    equations = All-append _ g.active_equations _ v.equations ((e, b), tt);
    counted = v.counted;
  }

  -- The graph and the queue that the ripple starts from.
  abbrev pub Started : Graph → Graph → List ℕ → Type 0
  Started g g' queue =
      GraphInv size truth l g'
      × Queued g' queue
      × (length queue + unresolved l g'.resolved ≡ unresolved l g.resolved)

  admit-Started :
      (g : Graph) (block ns : List ℕ)
      → GraphInv size truth l g
      → block ≡ xor_all size truth ns
      → All (λ i. i < l) ns
      → Open g.resolved ns
      → Started g (admit g block ns).0 (admit g block ns).1
  unfolding admit
  admit-Started g block [] v e b o = (v, tt, omega arith)
  admit-Started g block (n ∷ []) v e b o =
      let one = unresolved-insert l n block g.resolved b.0 o.0 in
      (
        record {
          solved = (e ∙ xor_all-one size truth fits n, v.solved);
          equations = v.equations;
          counted = omega (arith, v.counted, one);
        },
        (has_self n block g.resolved, tt),
        omega (arith, one),
      )
  admit-Started g block (n ∷ m ∷ ns) v e b o =
      (add_equation-GraphInv g block (n ∷ m ∷ ns) v e b, tt, unfold add_equation in omega arith)

  -- A symbol whose data is the exclusive or of its neighbours is absorbed: no slice has the wrong
  -- length, the fuel is enough, and the invariant holds afterwards.
  pub absorb-Settled :
      (p : Platform) (d : FountainDecoder p) (block ns : List ℕ)
      → d.l ≡ l
      → GraphInv size truth l d.graph
      → Distinct ns
      → All (λ i. i < l) ns
      → block ≡ xor_all size truth ns
      → Settled size truth fits l d.graph (absorb p d block ns)
  unfolding absorb
  absorb-Settled p d block ns el v distinct b e = go (cancel d.graph.resolved ns block []) (
      cancel-Cancelled size truth fits l d.graph.resolved v.solved ns block [] distinct
        (Apart-nil ns) b tt tt
        (e ∙ sym (from_zeros (xor_all size truth ns) (xor_all-IsBlock size truth fits ns))))
    where
      from_zeros : (a : List ℕ) → IsBlock size a → xor_bytes (xor_all size truth []) a ≡ a
      from_zeros a h =
          unfold xor_all in xor_bytes_comm (xor_all size truth []) a ∙ xor_zero_right size a h

      run :
          (g' : Graph) (queue : List ℕ)
          → Started d.graph g' queue
          → Settled size truth fits l d.graph (ripple (d.l + 1) g' queue)
      run g' queue s = Settled-weaken size truth fits l d.graph g' _ (omega (arith, s.2)) (
          ripple-Settled size truth fits l (d.l + 1) g' queue s.0 s.1
            (omega (arith, s.2, v.counted, el)))

      go :
          (r : Option (List ℕ × List ℕ))
          → Cancelled size truth fits l d.graph.resolved v.solved r
          → Settled size truth fits l d.graph (
              r >>= λ (left, unknown).
              ripple (d.l + 1) (admit d.graph left unknown).0 (admit d.graph left unknown).1)
      go none c = c
      go (some (left, unknown)) c =
          run (admit d.graph left unknown).0 (admit d.graph left unknown).1
            (admit-Started d.graph left unknown v c.0 c.1 c.2)
