-- ===== src/Precode/Build.antt =====
-- `build_precoded`: the blocks it returns, and their number.
use orbit_transfer.Prelude.{
  ℕ, zero, suc, ◌+◌, ◌≡◌, sym, ap, subst, List, [], ◌∷◌, ◌++◌, some, arith, length, get_elem?,
  replicate, length-append, All, All-append, All-get_elem?, >>=-eq-some,
}
use orbit_transfer.Simd.{xor_bytes, xor_inplace}
use orbit_transfer.Simd.Laws.{zeros}
use orbit_transfer.Simd.Blocks.{
  IsBlock, zeros-IsBlock, xor_bytes-IsBlock, xor_inplace-IsBlock, block_at, block_at-IsBlock,
  block_at-get_elem?,
}
use orbit_transfer.Platform.{Platform}
use orbit_transfer.Precode.Checks.{
  Agrees, Agrees-append_left, LdpcChecks, HdpcChecks, push_ldpc-Checks, push_hdpc-Checks,
}
use orbit_transfer.Precode.{
  precode_neighbors, hdpc_neighbors, xor_over, push_ldpc, push_hdpc, build_precoded,
}

push_ldpc-Agrees :
    (truth : ℕ → List ℕ) (left i s size : ℕ) (source precoded out : List (List ℕ))
    → push_ldpc left i s size source precoded ≡ some out
    → Agrees truth out
    → Agrees truth precoded
unfolding push_ldpc
push_ldpc-Agrees truth zero i s size source precoded out e u =
    let same : precoded ≡ out = cc in subst (Agrees truth) (sym same) u
push_ldpc-Agrees truth (suc left) i s size source precoded out e u =
    let (ns, covered, e1) = >>=-eq-some (precode_neighbors (length source) s i) _ e in
    let (block, xored, e2) = >>=-eq-some (xor_over source (replicate size 0) ns) _ e1 in
    Agrees-append_left truth precoded (block ∷ [])
      (push_ldpc-Agrees truth left (i + 1) s size source (precoded ++ block ∷ []) out e2 u)

length-push_ldpc :
    (left i s size : ℕ) (source precoded out : List (List ℕ))
    → push_ldpc left i s size source precoded ≡ some out
    → length out ≡ length precoded + left
unfolding push_ldpc
length-push_ldpc zero i s size source precoded out e =
    let same : precoded ≡ out = cc in omega (arith, ap length same)
length-push_ldpc (suc left) i s size source precoded out e =
    let (ns, covered, e1) = >>=-eq-some (precode_neighbors (length source) s i) _ e in
    let (block, xored, e2) = >>=-eq-some (xor_over source (replicate size 0) ns) _ e1 in
    omega (
      arith,
      length-push_ldpc left (i + 1) s size source (precoded ++ block ∷ []) out e2,
      length-append precoded (block ∷ []),
    )

length-push_hdpc :
    (p : Platform) (left i k s h size : ℕ) (precoded out : List (List ℕ))
    → push_hdpc p left i k s h size precoded ≡ some out
    → length out ≡ length precoded + left
unfolding push_hdpc
length-push_hdpc p zero i k s h size precoded out e =
    let same : precoded ≡ out = cc in omega (arith, ap length same)
length-push_hdpc p (suc left) i k s h size precoded out e =
    let (ns, covered, e1) = >>=-eq-some (hdpc_neighbors p k s h i) _ e in
    let (block, xored, e2) = >>=-eq-some (xor_over precoded (replicate size 0) ns) _ e1 in
    omega (
      arith,
      length-push_hdpc p left (i + 1) k s h size (precoded ++ block ∷ []) out e2,
      length-append precoded (block ∷ []),
    )

pub length-build_precoded :
    (p : Platform) (source : List (List ℕ)) (s h size : ℕ) (out : List (List ℕ))
    → build_precoded p source s h size ≡ some out
    → length out ≡ length source + s + h
unfolding build_precoded
length-build_precoded p source s h size out e =
    let (mid, ldpc_built, e1) = >>=-eq-some (push_ldpc s 0 s size source source) _ e in
    omega (
      arith,
      length-push_ldpc s 0 s size source source mid ldpc_built,
      length-push_hdpc p h 0 (length source) s h size mid out e1,
    )

module _ (size : ℕ) where
  xor_over-IsBlock :
      (blocks : List (List ℕ)) (acc : List ℕ) (ns : List ℕ) (out : List ℕ)
      → All (IsBlock size) blocks
      → IsBlock size acc
      → xor_over blocks acc ns ≡ some out
      → IsBlock size out
  unfolding xor_over
  xor_over-IsBlock blocks acc [] out t h e =
      let same : acc ≡ out = cc in subst (IsBlock size) same h
  xor_over-IsBlock blocks acc (n ∷ ns) out t h e =
      let (block, found, e1) = >>=-eq-some (get_elem? blocks n) _ e in
      let (next, xored, e2) = >>=-eq-some (xor_inplace acc block) _ e1 in
      let hb = All-get_elem? _ n blocks t found in
      let fact = xor_inplace-IsBlock size acc block h hb in
      let is_next : xor_bytes acc block ≡ next = cc in
      xor_over-IsBlock blocks next ns out t
        (subst (IsBlock size) is_next (xor_bytes-IsBlock size acc block h hb)) e2

  push_ldpc-IsBlock :
      (left i s : ℕ) (source precoded out : List (List ℕ))
      → All (IsBlock size) source
      → All (IsBlock size) precoded
      → push_ldpc left i s size source precoded ≡ some out
      → All (IsBlock size) out
  unfolding push_ldpc
  push_ldpc-IsBlock zero i s source precoded out t h e =
      let same : precoded ≡ out = cc in subst (All (IsBlock size)) same h
  push_ldpc-IsBlock (suc left) i s source precoded out t h e =
      let (ns, covered, e1) = >>=-eq-some (precode_neighbors (length source) s i) _ e in
      let (block, xored, e2) = >>=-eq-some (xor_over source (replicate size 0) ns) _ e1 in
      push_ldpc-IsBlock left (i + 1) s source (precoded ++ block ∷ []) out t
        (All-append _ precoded (block ∷ []) h
          (xor_over-IsBlock source (zeros size) ns block t (zeros-IsBlock size) xored, tt))
        e2

  push_hdpc-IsBlock :
      (p : Platform) (left i k s h : ℕ) (precoded out : List (List ℕ))
      → All (IsBlock size) precoded
      → push_hdpc p left i k s h size precoded ≡ some out
      → All (IsBlock size) out
  unfolding push_hdpc
  push_hdpc-IsBlock p zero i k s h precoded out t e =
      let same : precoded ≡ out = cc in subst (All (IsBlock size)) same t
  push_hdpc-IsBlock p (suc left) i k s h precoded out t e =
      let (ns, covered, e1) = >>=-eq-some (hdpc_neighbors p k s h i) _ e in
      let (block, xored, e2) = >>=-eq-some (xor_over precoded (replicate size 0) ns) _ e1 in
      push_hdpc-IsBlock p left (i + 1) k s h (precoded ++ block ∷ []) out
        (All-append _ precoded (block ∷ []) t
          (xor_over-IsBlock precoded (zeros size) ns block t (zeros-IsBlock size) xored, tt))
        e2

  -- What `build_precoded` makes of `k` source blocks: `k + s + h` blocks, the source among them,
  -- in which each check is the exclusive or of the inputs that it covers.
  pub record IsPrecoded (p : Platform) (source : List (List ℕ)) (s h : ℕ) (out : List (List ℕ))
      : Type 0 where
    pub blocks : All (IsBlock size) out
    pub counted : length out ≡ length source + s + h
    pub keeps_source : Agrees (block_at size out) source
    pub ldpc :
        LdpcChecks size
          (block_at size out)
          (λ n. block_at-IsBlock size out n blocks)
          (length source)
          s
          s
          0
    pub hdpc :
        HdpcChecks size
          (block_at size out)
          (λ n. block_at-IsBlock size out n blocks)
          p
          (length source)
          s
          h
          h
          0

  -- Whenever `build_precoded` returns on source blocks of the symbol size, every LDPC check and
  -- every HDPC check that it appends is the exclusive or of the inputs that it covers, and the
  -- source blocks stand in front.
  pub build_precoded-IsPrecoded :
      (p : Platform) (source : List (List ℕ)) (s h : ℕ) (out : List (List ℕ))
      → All (IsBlock size) source
      → build_precoded p source s h size ≡ some out
      → IsPrecoded p source s h out
  unfolding build_precoded
  build_precoded-IsPrecoded p source s h out t e =
      let (mid, ldpc_built, e1) = >>=-eq-some (push_ldpc s 0 s size source source) _ e in
      let mid_blocks = push_ldpc-IsBlock s 0 s source source mid t t ldpc_built in
      let blocks = push_hdpc-IsBlock p h 0 (length source) s h mid out mid_blocks e1 in
      finish mid ldpc_built e1 blocks
    where
      agrees_self : (b : All (IsBlock size) out) → Agrees (block_at size out) out
      agrees_self b n x found = sym (block_at-get_elem? size out n found)

      finish :
          (mid : List (List ℕ))
          → push_ldpc s 0 s size source source ≡ some mid
          → push_hdpc p h 0 (length source) s h size mid ≡ some out
          → All (IsBlock size) out
          → IsPrecoded p source s h out
      finish mid l1 h1 blocks =
          let fits = λ (n : ℕ). block_at-IsBlock size out n blocks in
          let truth = block_at size out in
          let long = length-push_ldpc s 0 s size source source mid l1 in
          let upper =
            push_hdpc-Checks size truth fits p h 0 (length source) s h mid out h1
              (omega (arith, long)) (agrees_self blocks) in
          let source_true = push_ldpc-Agrees truth s 0 s size source source mid l1 upper.1 in
          let lower =
            push_ldpc-Checks size truth fits s 0 s source source mid l1 (omega arith) source_true
              upper.1 in
          record {
            blocks = blocks;
            counted = omega (arith, upper.2);
            keeps_source = source_true;
            ldpc = lower.0;
            hdpc = upper.0;
          }
