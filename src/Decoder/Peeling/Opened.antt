-- ===== src/Decoder/Peeling/Opened.antt =====
-- The equations of the checks, which `FountainDecoder::new` starts from.
use orbit_transfer.Prelude.{
  ℕ, zero, suc, ◌+◌, ◌%◌, ◌<◌, ◌≡◌, ◌⊎◌, inl, inr, true, List, [], ◌∷◌, ◌++◌, Option, none, some,
  arith, ◌==◌, subst, refl, ◌∙◌, Option-cases, Bool-cases, length, replicate, length-append, ap,
  ap₂, >>=-eq-some,
}
use orbit_transfer.Prelude.Sorted.{contains, add, Distinct, contains-add, sort, dedup, length-sort}
use orbit_transfer.Prelude.Members.{add-Distinct}
use orbit_transfer.Platform.{Platform}
use orbit_transfer.Precode.{s_for, h_for, strided, precode_neighbors, hdpc_neighbors}
use orbit_transfer.Precode.Neighbors.{IsCover, precode_neighbors-IsCover, hdpc_neighbors-IsCover}
use orbit_transfer.Decoder
use orbit_transfer.Decoder.{
  Graph, FountainDecoder, has, add_equation, collect, ldpc_equations, hdpc_equations, empty_graph,
}
use orbit_transfer.Decoder.Start.{contains-collect}
use orbit_transfer.Decoder.Peeling.{Two}
use orbit_transfer.Decoder.Peeling.Cancel.{Remains}
use orbit_transfer.Decoder.Peeling.Ripple.{Settled}
use orbit_transfer.Decoder.Peeling.Arrival.{add_equation-Settled}

-- The equations of the first `a` checks, which have the inputs from `first` on.
abbrev pub CheckOf : (ℕ → Option (List ℕ)) → ℕ → ℕ → List ℕ → Type 0
CheckOf covered first a ns =
    (j : ℕ) × (below : List ℕ) × (j < a)
    × (covered j ≡ some below)
    × (ns ≡ add (first + j) (collect below))

CheckOf-weaken :
    (covered : ℕ → Option (List ℕ)) (first a : ℕ) (ns : List ℕ)
    → CheckOf covered first a ns
    → CheckOf covered first (a + 1) ns
CheckOf-weaken covered first a ns (j, below, lt, found, same) = (j, below, omega arith, found, same)

CheckOf-last :
    (covered : ℕ → Option (List ℕ)) (first a : ℕ) (below ns : List ℕ)
    → covered a ≡ some below
    → CheckOf covered first (a + 1) ns
    → CheckOf covered first a ns ⊎ (ns ≡ add (first + a) (collect below))
CheckOf-last covered first a below ns found (j, b, lt, at_j, same) = elim (Bool-cases (j == a)) [
  | inl here ↦
      let last : j ≡ a = ground arith in
      let at_a : covered a ≡ some b = subst (λ i. covered i ≡ some b) last at_j in
      let one : b ≡ below = cc in inr (same ∙ ap₂ (λ i c. add (first + i) (collect c)) last one)
  | inr other ↦ inl (j, b, ground arith, at_j, same)
]

collect-Distinct : (ns : List ℕ) → Distinct (collect ns)
unfolding collect
collect-Distinct [] = tt
collect-Distinct (n ∷ ns) = add-Distinct n (collect ns) (collect-Distinct ns)

check-Two :
    (check bound : ℕ) (below : List ℕ)
    → IsCover bound below
    → bound < suc check
    → 0 < length below
    → Two (add check (collect below))
check-Two check bound [] cover le pos = absurd (omega arith)
check-Two check bound (b ∷ below) cover le pos =
    let first : contains b (b ∷ below) ≡ true = unfold contains in ground arith in
    (
      check,
      b,
      ground (arith, contains-add check check (collect (b ∷ below))),
      ground (arith, contains-add check b (collect (b ∷ below)), contains-collect b (b ∷ below)),
      (let lt = (cover.1).0 in ground arith),
    )

check-Remains :
    (g : Graph) (check : ℕ) (below : List ℕ)
    → g.resolved ≡ []
    → Remains g.resolved (add check (collect below)) (add check (collect below))
check-Remains g check below empty = record {
  distinct = add-Distinct check (collect below) (collect-Distinct below);
  inside = λ j h. h;
  open_ = λ j h. rw empty (unfold has in refl);
  covers = λ j h. inl h;
}

precode_neighbors-some :
    (k s i : ℕ) (ns : List ℕ)
    → 0 < k
    → precode_neighbors k s i ≡ some ns
    → IsCover k ns × (0 < length ns)
precode_neighbors-some k s i ns pos e =
    let (ns', found, cover) = precode_neighbors-IsCover k s i pos in
    let same : ns' ≡ ns = cc in (subst (IsCover k) same cover, some_neighbor e)
  where
    not_empty : (xs : List ℕ) → 0 < length xs → 0 < length (dedup xs)
    not_empty [] h = absurd (omega arith)
    not_empty (x ∷ xs) h = unfold dedup in omega arith

    some_neighbor : precode_neighbors k s i ≡ some ns → 0 < length ns
    some_neighbor e =
        let raw = strided k k s i ++ (i % k ∷ (i + 1) % k ∷ []) in
        let opened : precode_neighbors k s i ≡ some (dedup (sort raw)) =
          unfold precode_neighbors in ground arith in
        let here : dedup (sort raw) ≡ ns = cc in
        subst (λ m. 0 < length m) here
          (not_empty (sort raw) (
            omega
              (arith, length-sort raw, length-append (strided k k s i) (i % k ∷ (i + 1) % k ∷ []))))

-- The equations of both kinds of checks.
abbrev pub Check : Platform → ℕ → ℕ → ℕ → ℕ → ℕ → List ℕ → Type 0
Check p k s h a b ns =
    CheckOf (precode_neighbors k s) k a ns ⊎ CheckOf (hdpc_neighbors p k s h) (k + s) b ns

module _ (p : Platform) (k s h size : ℕ) (pos : 0 < k) where
  abbrev Opens : ℕ → ℕ → Option Graph → Type 0
  Opens a b none = Unit {0}
  Opens a b (some g) = Settled (Check p k s h a b) [] g × (g.resolved ≡ [])

  lower-Opens :
      (i : ℕ) (below : List ℕ) (g : Graph)
      → precode_neighbors k s i ≡ some below
      → Opens i 0 (some g)
      → Opens (i + 1) 0 (some (add_equation (replicate size 0) (add (k + i) (collect below)) g))
  lower-Opens i below g found (settled, empty) =
      let (cover, more) = precode_neighbors-some k s i below pos found in
      let ns = add (k + i) (collect below) in
      (
        add_equation-Settled (Check p k s h i 0) (Check p k s h (i + 1) 0) ns
            (λ m e. elim e [
              | inl lower ↦ inl (CheckOf-weaken (precode_neighbors k s) k i m lower)
              | inr upper ↦ inr upper
            ])
            (inl (i, below, omega arith, found, refl))
            (λ m e. elim e [
              | inl lower ↦ elim (CheckOf-last (precode_neighbors k s) k i below m found lower) [
                | inl before ↦ inl (inl before)
                | inr here ↦ inr here
              ]
              | inr upper ↦ inl (inr upper)
            ])
            g (replicate size 0) ns (check-Remains g (k + i) below empty)
            (check-Two (k + i) k below cover (omega arith) more) settled,
        unfold add_equation in empty,
      )

  upper-Opens :
      (i : ℕ) (below : List ℕ) (g : Graph)
      → hdpc_neighbors p k s h i ≡ some below
      → Opens s i (some g)
      → Opens s (i + 1) (some (add_equation (replicate size 0) (add (k + s + i) (collect below)) g))
  upper-Opens i below g found (settled, empty) =
      let (cover, more) = hdpc_neighbors-IsCover p k s h i below found in
      let ns = add (k + s + i) (collect below) in
      (
        add_equation-Settled (Check p k s h s i) (Check p k s h s (i + 1)) ns
            (λ m e. elim e [
              | inl lower ↦ inl lower
              | inr upper ↦ inr (CheckOf-weaken (hdpc_neighbors p k s h) (k + s) i m upper)
            ])
            (inr (i, below, omega arith, found, refl))
            (λ m e. elim e [
              | inl lower ↦ inl (inl lower)
              | inr upper ↦
                  elim (CheckOf-last (hdpc_neighbors p k s h) (k + s) i below m found upper) [
                    | inl before ↦ inl (inr before)
                    | inr here ↦ inr here
                  ]
            ])
            g (replicate size 0) ns (check-Remains g (k + s + i) below empty)
            (check-Two (k + s + i) (k + s) below cover (omega arith) (omega (arith, more))) settled,
        unfold add_equation in empty,
      )

  ldpc_equations-Opens :
      (left i : ℕ) (g : Graph)
      → Opens i 0 (some g)
      → Opens (i + left) 0 (ldpc_equations left i k s size g)
  unfolding ldpc_equations
  ldpc_equations-Opens zero i g opens =
      let same : i ≡ i + 0 = omega arith in subst (λ n. Opens n 0 (some g)) same opens
  ldpc_equations-Opens (suc left) i g opens = elim (Option-cases (precode_neighbors k s i)) [
    | inl absent ↦ rw (absent, Opens) tt
    | inr (below, found) ↦
        let same : i + 1 + left ≡ i + suc left = omega arith in
        rw (found, ← same) (ldpc_equations-Opens left (i + 1) _ (lower-Opens i below g found opens))
  ]

  hdpc_equations-Opens :
      (left i : ℕ) (g : Graph)
      → Opens s i (some g)
      → Opens s (i + left) (hdpc_equations p left i k s h size g)
  unfolding hdpc_equations
  hdpc_equations-Opens zero i g opens =
      let same : i ≡ i + 0 = omega arith in subst (λ n. Opens s n (some g)) same opens
  hdpc_equations-Opens (suc left) i g opens = elim (Option-cases (hdpc_neighbors p k s h i)) [
    | inl absent ↦ rw (absent, Opens) tt
    | inr (below, found) ↦
        let same : i + 1 + left ≡ i + suc left = omega arith in
        rw (found, ← same) (hdpc_equations-Opens left (i + 1) _ (upper-Opens i below g found opens))
  ]

  all_lower : Opens 0 0 (some empty_graph) → Opens s 0 (ldpc_equations s 0 k s size empty_graph)
  all_lower opens =
      let same : 0 + s ≡ s = omega arith in
      subst (λ n. Opens n 0 (ldpc_equations s 0 k s size empty_graph)) same
        (ldpc_equations-Opens s 0 empty_graph opens)

  all_upper : (g : Graph) → Opens s 0 (some g) → Opens s h (hdpc_equations p h 0 k s h size g)
  all_upper g opens =
      let same : 0 + h ≡ h = omega arith in
      subst (λ n. Opens s n (hdpc_equations p h 0 k s h size g)) same
        (hdpc_equations-Opens h 0 g opens)

-- A decoder that `new` returns has the equations of all checks, and nothing is resolved.
pub new-Settled :
    (p : Platform) (payload_len size k checksum : ℕ) (d : FountainDecoder p)
    → 0 < k
    → Decoder.new p payload_len size k checksum ≡ some d
    → Settled (Check p k (s_for k) (h_for k) (s_for k) (h_for k)) [] d.graph
      × (d.graph.resolved ≡ [])
unfolding Decoder.new
new-Settled p payload_len size k checksum d pos e =
    let (lower, ldpc, e1) =
      >>=-eq-some (ldpc_equations (s_for k) 0 k (s_for k) size empty_graph) _ e in
    let (upper, hdpc, e2) =
      >>=-eq-some (hdpc_equations p (h_for k) 0 k (s_for k) (h_for k) size lower) _ e1 in
    let made : upper ≡ d.graph = ap (λ r. elim r [ none ↦ upper | some c ↦ c.graph ]) e2 in
    let s = s_for k in
    let h = h_for k in
    subst (λ g. Opens p k s h size pos s h (some g)) made
      (subst (Opens p k s h size pos s h) hdpc (
        all_upper p k s h size pos lower
          (subst (Opens p k s h size pos s 0) ldpc (all_lower p k s h size pos (nothing_yet s h)))))
  where
    nothing_yet : (s h : ℕ) → Opens p k s h size pos 0 0 (some empty_graph)
    nothing_yet s h = (
      (
        λ ns e. elim e [
          | inl (j, below, lt, found, same) ↦ absurd (omega arith)
          | inr (j, below, lt, found, same) ↦ absurd (omega arith)
        ],
        record { resolved = tt; slots = tt },
      ),
      refl,
    )
