-- ===== src/Decoder/Start.antt =====
-- `FountainDecoder::new`: the check equations that decoding starts from hold of the true inputs.
use orbit_transfer.Prelude.{
  ℕ, zero, suc, ◌+◌, ◌≤◌, ◌<◌, ◌≡◌, refl, sym, ap, subst, ◌∙◌, List, [], ◌∷◌, Option, none, some,
  arith, replicate, All, ◌>>=◌,
}
use orbit_transfer.Prelude.Sorted.{
  contains, add, add-All, Distinct, contains-add, IsStrict-Distinct, not-contains-All,
}
use orbit_transfer.Simd.{xor_bytes}
use orbit_transfer.Simd.Laws.{zeros, xor_bytes_comm, xor_bytes_self}
use orbit_transfer.Simd.Blocks.{IsBlock, xor_all, xor_all-add}
use orbit_transfer.Platform.{Platform}
use orbit_transfer.Precode.{s_for, h_for}
use orbit_transfer.Precode.Neighbors.{IsCover, precode_neighbors-IsCover, hdpc_neighbors-IsCover}
use orbit_transfer.Precode.Checks.{LdpcChecks, HdpcChecks}
use orbit_transfer.Decoder.Unresolved.{unresolved-nil}
use orbit_transfer.Decoder.Invariant.{GraphInv}
use orbit_transfer.Decoder.Symbols.{add_equation-GraphInv}
use orbit_transfer.Decoder.Sound.{DecoderInv}
use orbit_transfer.Decoder
use orbit_transfer.Soliton
use orbit_transfer.Decoder.{
  Graph, FountainDecoder, add_equation, collect, ldpc_equations, hdpc_equations, empty_graph,
}

pub contains-collect : (m : ℕ) (ns : List ℕ) → contains m (collect ns) ≡ contains m ns
unfolding contains collect
contains-collect m [] = refl
contains-collect m (n ∷ ns) = ground (arith, contains-add n m (collect ns), contains-collect m ns)

collect-All : (P : ℕ → Type 0) (ns : List ℕ) → All P ns → All P (collect ns)
unfolding collect
collect-All P [] h = tt
collect-All P (n ∷ ns) h = add-All P n (collect ns) h.0 (collect-All P ns h.1)

All-weaken : (a b : ℕ) (ns : List ℕ) → a ≤ b → All (λ i. i < a) ns → All (λ i. i < b) ns
All-weaken a b [] le h = tt
All-weaken a b (n ∷ ns) le h = (omega (arith, h.0), All-weaken a b ns le h.1)

module _ (size : ℕ) (truth : ℕ → List ℕ) (fits : (i : ℕ) → IsBlock size (truth i)) where
  xor_all-collect :
      (ns : List ℕ) → Distinct ns → xor_all size truth (collect ns) ≡ xor_all size truth ns
  unfolding xor_all collect
  xor_all-collect [] d = refl
  xor_all-collect (n ∷ ns) d =
      xor_all-add size truth fits n (collect ns) (contains-collect n ns ∙ d.0)
      ∙ ap (λ t. xor_bytes t (truth n)) (xor_all-collect ns d.1)
      ∙ xor_bytes_comm (xor_all size truth ns) (truth n)

  -- A check and the inputs that it covers cancel out.
  check_equation :
      (check bound : ℕ) (ns : List ℕ)
      → IsCover bound ns
      → bound ≤ check
      → truth check ≡ xor_all size truth ns
      → zeros size ≡ xor_all size truth (add check (collect ns))
  check_equation check bound ns c le e =
      let outside = not-contains-All (λ n. n < bound) check ns c.1 (λ lt. omega arith) in
      let sum = xor_all-collect ns (IsStrict-Distinct ns c.0) in
      sym (
        xor_all-add size truth fits check (collect ns) (contains-collect check ns ∙ outside)
        ∙ ap (λ t. xor_bytes t (truth check)) (sum ∙ sym e)
        ∙ xor_bytes_self (truth check)
        ∙ ap zeros (fits check).0)

  -- What the loops over the checks return.
  abbrev pub Built : ℕ → Option Graph → Type 0
  Built l none = ⊥
  Built l (some g) = GraphInv size truth l g

  -- One more check equation keeps the invariant.
  add_check :
      (l check bound : ℕ) (ns : List ℕ) (g : Graph)
      → GraphInv size truth l g
      → IsCover bound ns
      → bound ≤ check
      → check < l
      → truth check ≡ xor_all size truth ns
      → GraphInv size truth l (add_equation (replicate size 0) (add check (collect ns)) g)
  add_check l check bound ns g v c le lt e =
      add_equation-GraphInv size truth fits l g (zeros size) (add check (collect ns)) v
        (check_equation check bound ns c le e)
        (add-All _ check (collect ns) lt
          (collect-All _ ns (All-weaken bound l ns (omega arith) c.1)))

  ldpc_equations-Built :
      (l left i k s : ℕ) (g : Graph)
      → 0 < k
      → k + (i + left) ≤ l
      → LdpcChecks size truth fits k s left i
      → GraphInv size truth l g
      → Built l (ldpc_equations left i k s size g)
  unfolding ldpc_equations
  ldpc_equations-Built l zero i k s g pos le checks v = v
  ldpc_equations-Built l (suc left) i k s g pos le checks v =
      let (ns, found, e) = checks.0 in
      let (ns', found', cover) = precode_neighbors-IsCover k s i pos in
      let same : ns' ≡ ns = cc in
      rw (found, Built)
        (ldpc_equations-Built l left (i + 1) k s _ pos (omega arith) checks.1 (
          add_check l (k + i) k ns g v (subst (IsCover k) same cover) (omega arith) (omega arith)
            e))

  hdpc_equations-Built :
      (p : Platform) (l left i k s h : ℕ) (g : Graph)
      → k + s + (i + left) ≤ l
      → HdpcChecks size truth fits p k s h left i
      → GraphInv size truth l g
      → Built l (hdpc_equations p left i k s h size g)
  unfolding hdpc_equations
  hdpc_equations-Built p l zero i k s h g le checks v = v
  hdpc_equations-Built p l (suc left) i k s h g le checks v =
      let (ns, found, e) = checks.0 in
      let cover = hdpc_neighbors-IsCover p k s h i ns found in
      rw (found, Built)
        (hdpc_equations-Built p l left (i + 1) k s h _ (omega arith) checks.1
          (add_check l (k + s + i) (k + s) ns g v cover.0 (omega arith) (omega arith) e))

  -- The decoder that `new` returns for a transfer.
  abbrev pub Opened : (p : Platform) → ℕ → ℕ → ℕ → Option (FountainDecoder p) → Type 0
  Opened p payload_len k checksum none = ⊥
  Opened p payload_len k checksum (some d) =
      DecoderInv p size truth fits d
      × (d.payload_len ≡ payload_len)
      × (d.k ≡ k)
      × (d.l ≡ k + s_for k + h_for k)
      × (d.expected_checksum ≡ checksum)
      × (d.sampler ≡ Soliton.new p (k + s_for k + h_for k))

  -- When every check is the exclusive or of the inputs that it covers, `new` returns a decoder
  -- whose equations all hold.
  pub new-Opened :
      (p : Platform) (payload_len k checksum : ℕ)
      → 0 < k
      → LdpcChecks size truth fits k (s_for k) (s_for k) 0
      → HdpcChecks size truth fits p k (s_for k) (h_for k) (h_for k) 0
      → Opened p payload_len k checksum (Decoder.new p payload_len size k checksum)
  unfolding Decoder.new Soliton.new
  new-Opened p payload_len k checksum pos lower upper =
      first (ldpc_equations s 0 k s size empty_graph) (
        ldpc_equations-Built l s 0 k s empty_graph pos (omega arith) lower
          (record { solved = tt; equations = tt; counted = omega (arith, unresolved-nil l) }))
    where
      s : ℕ
      s = s_for k

      l : ℕ
      l = k + s_for k + h_for k

      opened : Graph → FountainDecoder p
      opened graph = record {
        payload_len = payload_len;
        symbol_size = size;
        k = k;
        l = l;
        expected_checksum = checksum;
        sampler = Soliton.new p l;
        graph = graph;
        received_esis = [];
      }

      second :
          (r : Option Graph)
          → Built l r
          → Opened p payload_len k checksum (r >>= λ graph. some (opened graph))
      second none b = b
      second (some g) b = (
        record { graph_inv = b; same_inputs = refl; some_input = omega arith; same_size = refl },
        refl,
        refl,
        refl,
        refl,
        refl,
      )

      first :
          (r : Option Graph)
          → Built l r
          → Opened p payload_len k checksum (
              r >>= λ g.
              hdpc_equations p (h_for k) 0 k s (h_for k) size g >>= λ graph. some (opened graph))
      first none b = b
      first (some g) b =
          second (hdpc_equations p (h_for k) 0 k s (h_for k) size g)
            (hdpc_equations-Built p l (h_for k) 0 k s (h_for k) g (omega arith) upper b)
