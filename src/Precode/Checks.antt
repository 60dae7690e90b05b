-- ===== src/Precode/Checks.antt =====
-- `build_precoded`: every check symbol is the exclusive or of the inputs that it covers.
use orbit_transfer.Prelude.{
  ℕ, zero, suc, ◌+◌, ◌≡◌, refl, sym, ap, subst, ◌∙◌, List, [], ◌∷◌, ◌++◌, some, arith, length,
  get_elem?, replicate, length-append, >>=-eq-some,
}
use orbit_transfer.Simd.{xor_bytes, xor_inplace}
use orbit_transfer.Simd.Laws.{zeros, xor_bytes_comm, xor_bytes_assoc}
use orbit_transfer.Simd.Blocks.{
  IsBlock, zeros-IsBlock, xor_bytes-IsBlock, xor_inplace-IsBlock, xor_all, xor_all-IsBlock,
  xor_zero_right,
}
use orbit_transfer.Platform.{Platform}
use orbit_transfer.Precode.{precode_neighbors, hdpc_neighbors, xor_over, push_ldpc, push_hdpc}

-- `truth` agrees with the blocks of a list.
abbrev pub Agrees : (ℕ → List ℕ) → List (List ℕ) → Type 0
Agrees truth blocks = (n : ℕ) (b : List ℕ) → get_elem? blocks n ≡ some b → b ≡ truth n

get_elem?-append_left :
    (xs ys : List (List ℕ)) (n : ℕ) {b : List ℕ}
    → get_elem? xs n ≡ some b
    → get_elem? (xs ++ ys) n ≡ some b
get_elem?-append_left [] ys n e = cc
get_elem?-append_left (x ∷ xs) ys zero e = e
get_elem?-append_left (x ∷ xs) ys (suc n) e = get_elem?-append_left xs ys n e

get_elem?-append_length :
    (xs : List (List ℕ)) (b : List ℕ) → get_elem? (xs ++ b ∷ []) (length xs) ≡ some b
get_elem?-append_length [] b = refl
get_elem?-append_length (x ∷ xs) b = get_elem?-append_length xs b

pub Agrees-append_left :
    (truth : ℕ → List ℕ) (xs ys : List (List ℕ)) → Agrees truth (xs ++ ys) → Agrees truth xs
Agrees-append_left truth xs ys h n b e = h n b (get_elem?-append_left xs ys n e)

module _ (size : ℕ) (truth : ℕ → List ℕ) (fits : (i : ℕ) → IsBlock size (truth i)) where
  pub xor_over-xor_all :
      (blocks : List (List ℕ)) (acc : List ℕ) (ns : List ℕ) (out : List ℕ)
      → Agrees truth blocks
      → IsBlock size acc
      → xor_over blocks acc ns ≡ some out
      → out ≡ xor_bytes acc (xor_all size truth ns)
  unfolding xor_over xor_all
  xor_over-xor_all blocks acc [] out t h e =
      let same : acc ≡ out = cc in sym same ∙ sym (xor_zero_right size acc h)
  xor_over-xor_all blocks acc (n ∷ ns) out t h e =
      let (block, found, e1) = >>=-eq-some (get_elem? blocks n) _ e in
      let (next, xored, e2) = >>=-eq-some (xor_inplace acc block) _ e1 in
      let true_block = t n block found in
      let fact = xor_inplace-IsBlock size acc (truth n) h (fits n) in
      let is_next : next ≡ xor_bytes acc (truth n) =
        next_block acc block (truth n) next true_block xored fact in
      xor_over-xor_all blocks next ns out t
        (subst (IsBlock size) (sym is_next) (xor_bytes-IsBlock size acc (truth n) h (fits n))) e2
      ∙ ap (λ z. xor_bytes z (xor_all size truth ns)) is_next
      ∙ xor_bytes_assoc acc (truth n) (xor_all size truth ns)
    where
      next_block :
          (a b c d : List ℕ)
          → b ≡ c
          → xor_inplace a b ≡ some d
          → xor_inplace a c ≡ some (xor_bytes a c)
          → d ≡ xor_bytes a c
      next_block a b c d e f g = cc

  -- The equations of the LDPC checks from check `i` on.
  abbrev pub LdpcChecks : ℕ → ℕ → ℕ → ℕ → Type 0
  LdpcChecks k s zero i = Unit {0}
  LdpcChecks k s (suc left) i =
      ((ns : List ℕ) × (precode_neighbors k s i ≡ some ns)
        × (truth (k + i) ≡ xor_all size truth ns))
      × LdpcChecks k s left (i + 1)

  abbrev pub HdpcChecks : Platform → ℕ → ℕ → ℕ → ℕ → ℕ → Type 0
  HdpcChecks p k s h zero i = Unit {0}
  HdpcChecks p k s h (suc left) i =
      ((ns : List ℕ) × (hdpc_neighbors p k s h i ≡ some ns)
        × (truth (k + s + i) ≡ xor_all size truth ns))
      × HdpcChecks p k s h left (i + 1)

  from_zeros :
      (blocks : List (List ℕ)) (ns : List ℕ) (out : List ℕ)
      → Agrees truth blocks
      → xor_over blocks (replicate size 0) ns ≡ some out
      → out ≡ xor_all size truth ns
  from_zeros blocks ns out t e =
      xor_over-xor_all blocks (zeros size) ns out t (zeros-IsBlock size) e
      ∙ xor_bytes_comm (zeros size) (xor_all size truth ns)
      ∙ xor_zero_right size (xor_all size truth ns) (xor_all-IsBlock size truth fits ns)

  pub push_ldpc-Checks :
      (left i s : ℕ) (source precoded out : List (List ℕ))
      → push_ldpc left i s size source precoded ≡ some out
      → length precoded ≡ length source + i
      → Agrees truth source
      → Agrees truth out
      → LdpcChecks (length source) s left i
        × Agrees truth precoded
        × (length out ≡ length source + (i + left))
  unfolding push_ldpc
  push_ldpc-Checks zero i s source precoded out e len t u =
      let same : precoded ≡ out = cc in
      (tt, subst (Agrees truth) (sym same) u, omega (arith, ap length same, len))
  push_ldpc-Checks (suc left) i s source precoded out e len t u =
      let (ns, covered, e1) = >>=-eq-some (precode_neighbors (length source) s i) _ e in
      let (block, xored, e2) = >>=-eq-some (xor_over source (replicate size 0) ns) _ e1 in
      let rest =
        push_ldpc-Checks left (i + 1) s source (precoded ++ block ∷ []) out e2
          (omega (arith, length-append precoded (block ∷ []), len)) t u in
      let here = rest.1 (length precoded) block (get_elem?-append_length precoded block) in
      (
        ((ns, covered, ap truth (sym len) ∙ sym here ∙ from_zeros source ns block t xored), rest.0),
        Agrees-append_left truth precoded (block ∷ []) rest.1,
        omega (arith, rest.2),
      )

  pub push_hdpc-Checks :
      (p : Platform) (left i k s h : ℕ) (precoded out : List (List ℕ))
      → push_hdpc p left i k s h size precoded ≡ some out
      → length precoded ≡ k + s + i
      → Agrees truth out
      → HdpcChecks p k s h left i × Agrees truth precoded × (length out ≡ k + s + (i + left))
  unfolding push_hdpc
  push_hdpc-Checks p zero i k s h precoded out e len u =
      let same : precoded ≡ out = cc in
      (tt, subst (Agrees truth) (sym same) u, omega (arith, ap length same, len))
  push_hdpc-Checks p (suc left) i k s h precoded out e len u =
      let (ns, covered, e1) = >>=-eq-some (hdpc_neighbors p k s h i) _ e in
      let (block, xored, e2) = >>=-eq-some (xor_over precoded (replicate size 0) ns) _ e1 in
      let rest =
        push_hdpc-Checks p left (i + 1) k s h (precoded ++ block ∷ []) out e2
          (omega (arith, length-append precoded (block ∷ []), len)) u in
      let here = rest.1 (length precoded) block (get_elem?-append_length precoded block) in
      let before = Agrees-append_left truth precoded (block ∷ []) rest.1 in
      (
        (
          (ns, covered, ap truth (sym len) ∙ sym here ∙ from_zeros precoded ns block before xored),
          rest.0,
        ),
        before,
        omega (arith, rest.2),
      )
