-- ===== src/Encoder/Symbols.antt =====
-- The source symbols of a payload: blocks of the symbol size that join to the payload.
use orbit_transfer.Prelude.{
  ℕ, zero, suc, ◌+◌, ◌-◌, ◌*◌, ◌≤◌, ◌<◌, ◌≡◌, refl, sym, ap, ap₂, subst, ◌∙◌, min, List, [], ◌∷◌,
  ◌++◌, arith, ltb, length, take, drop, replicate, length-append, length-take, length-drop,
  length-replicate, take-append_split, take-append, take-append-drop, All, All-take, All-drop,
  All-append, Bool-cases, inl, inr,
}
use orbit_transfer.Prelude.Le.{IsBytes}
use orbit_transfer.Simd.Laws.{zeros}
use orbit_transfer.Simd.Blocks.{IsBlock, zeros-IsBlock}
use orbit_transfer.Decoder.Payload.{joined}
use orbit_transfer.Encoder.{symbol_count, source_symbol, source_symbols}

take-min : (n : ℕ) (xs : List ℕ) → take n xs ≡ take (min n (length xs)) xs
take-min zero xs = let e : min 0 (length xs) ≡ 0 = omega arith in rw e refl
take-min (suc n) [] = let e : min (suc n) 0 ≡ 0 = omega arith in rw e refl
take-min (suc n) (x ∷ xs) =
    let e : min (suc n) (suc (length xs)) ≡ suc (min n (length xs)) = omega arith in
    rw e (ap (◌∷◌ x) (take-min n xs))

drop-nil : (n : ℕ) → drop {A = ℕ} n [] ≡ []
drop-nil zero = refl
drop-nil (suc n) = refl

drop-drop : (n m : ℕ) (xs : List ℕ) → drop m (drop n xs) ≡ drop (n + m) xs
drop-drop zero m xs = let e : 0 + m ≡ m = omega arith in rw e refl
drop-drop (suc n) m [] = drop-nil m ∙ sym (drop-nil (suc n + m))
drop-drop (suc n) m (x ∷ xs) =
    let e : suc n + m ≡ suc (n + m) = omega arith in rw e (drop-drop n m xs)

nil_of_length : (xs : List ℕ) → length xs ≡ 0 → xs ≡ []
nil_of_length [] e = refl
nil_of_length (x ∷ xs) e = absurd (omega arith)

-- The first `size` bytes, filled up with zeros.
abbrev padded : ℕ → List ℕ → List ℕ
padded size rest = take size rest ++ zeros (size - length rest)

source_symbol-padded :
    (payload : List ℕ) (size i : ℕ)
    → source_symbol payload size i ≡ padded size (drop (i * size) payload)
unfolding source_symbol
source_symbol-padded payload size i = elim (Bool-cases (ltb (i * size) (length payload))) [
  | inl inside ↦
      let start = i * size in
      let rest = drop start payload in
      let cut : min (start + size) (length payload) - start ≡ min size (length rest) =
        ground (arith, length-drop start payload) in
      let pad : size - min size (length rest) ≡ size - length rest = omega arith in
      rw (inside, cut, pad) (ap (λ t. t ++ zeros (size - length rest)) (sym (take-min size rest)))
  | inr outside ↦
      let none_left : length (drop (i * size) payload) ≡ 0 =
        ground (arith, length-drop (i * size) payload) in
      rw (outside, nil_of_length (drop (i * size) payload) none_left) (no_bytes size)
]
  where
    no_bytes : (n : ℕ) → replicate n 0 ≡ padded n []
    no_bytes zero = refl
    no_bytes (suc n) = let e : suc n - 0 ≡ suc n = omega arith in rw e refl

padded-IsBlock : (size : ℕ) (rest : List ℕ) → IsBytes rest → IsBlock size (padded size rest)
padded-IsBlock size rest h = (
  omega (
    arith,
    length-append (take size rest) (zeros (size - length rest)),
    length-take size rest,
    length-replicate {A = ℕ} (size - length rest) 0,
  ),
  All-append _ (take size rest) (zeros (size - length rest)) (All-take _ size rest h)
      (zeros-IsBlock (size - length rest)).1,
)

take-padded :
    (size : ℕ) (rest : List ℕ) → take (min (length rest) size) (padded size rest) ≡ take size rest
take-padded size rest =
    let e : min (length rest) size ≡ length (take size rest) =
      omega (arith, length-take size rest) in
    ap (λ n. take n (padded size rest)) e
    ∙ take-append (take size rest) (zeros (size - length rest))

-- The cut symbols of `rest`, one after the other, begin with `rest`.
abbrev laid_out : ℕ → ℕ → List ℕ → List ℕ
laid_out size zero rest = []
laid_out size (suc n) rest = padded size rest ++ laid_out size n (drop size rest)

take-laid_out :
    (size n : ℕ) (rest : List ℕ)
    → IsBytes rest
    → length rest ≤ n * size
    → take (length rest) (laid_out size n rest) ≡ rest
take-laid_out size zero rest h le = rw (nil_of_length rest (omega arith)) refl
take-laid_out size (suc n) rest h le =
    let more = laid_out size n (drop size rest) in
    let long : length (drop size rest) ≡ length rest - size = length-drop size rest in
    take-append_split (length rest) (padded size rest) more
    ∙ ap (λ m. take (min (length rest) m) (padded size rest) ++ take (length rest - m) more)
        (padded-IsBlock size rest h).0
    ∙ ap₂ ◌++◌ (take-padded size rest) (
        ap (λ m. take m more) (sym long)
        ∙ take-laid_out size n (drop size rest) (All-drop _ size rest h) (omega (arith, long)))
    ∙ take-append-drop size rest

pub source_symbols-IsBlock :
    (payload : List ℕ) (size left i : ℕ)
    → IsBytes payload
    → All (IsBlock size) (source_symbols payload size left i)
unfolding source_symbols
source_symbols-IsBlock payload size zero i h = tt
source_symbols-IsBlock payload size (suc left) i h = (
  subst (IsBlock size) (sym (source_symbol-padded payload size i))
      (padded-IsBlock size (drop (i * size) payload) (All-drop _ (i * size) payload h)),
  source_symbols-IsBlock payload size left (i + 1) h,
)

pub length-source_symbols :
    (payload : List ℕ) (size left i : ℕ) → length (source_symbols payload size left i) ≡ left
unfolding source_symbols
length-source_symbols payload size zero i = refl
length-source_symbols payload size (suc left) i =
    ap suc (length-source_symbols payload size left (i + 1))

-- Inputs that agree with the source symbols, from the `i`-th on.
abbrev pub FromSource : (ℕ → List ℕ) → List (List ℕ) → ℕ → Type 0
FromSource truth [] i = Unit {0}
FromSource truth (b ∷ bs) i = (b ≡ truth i) × FromSource truth bs (i + 1)

joined-laid_out :
    (truth : ℕ → List ℕ) (payload : List ℕ) (size left i : ℕ)
    → FromSource truth (source_symbols payload size left i) i
    → joined truth left i ≡ laid_out size left (drop (i * size) payload)
unfolding source_symbols
joined-laid_out truth payload size zero i t = refl
joined-laid_out truth payload size (suc left) i t =
    let next : i * size + size ≡ (i + 1) * size = omega arith in
    ap₂ ◌++◌ (sym t.0 ∙ source_symbol-padded payload size i) (
      joined-laid_out truth payload size left (i + 1) t.1
      ∙ ap (λ n. laid_out size left (drop n payload)) (sym next)
      ∙ ap (laid_out size left) (sym (drop-drop (i * size) size payload)))

pub symbol_count-covers :
    (n size : ℕ) → 0 < size → (n ≤ symbol_count n size * size) × (0 < symbol_count n size)
unfolding symbol_count
symbol_count-covers n size pos = grind arith

-- The source symbols of a payload, joined and cut at its length, are the payload.
pub take-joined :
    (truth : ℕ → List ℕ) (payload : List ℕ) (size : ℕ)
    → 0 < size
    → IsBytes payload
    → FromSource truth (source_symbols payload size (symbol_count (length payload) size) 0) 0
    → take (length payload) (joined truth (symbol_count (length payload) size) 0) ≡ payload
take-joined truth payload size pos h t =
    let k = symbol_count (length payload) size in
    let start : 0 * size ≡ 0 = omega arith in
    ap (take (length payload))
      (joined-laid_out truth payload size k 0 t ∙ ap (λ n. laid_out size k (drop n payload)) start)
    ∙ take-laid_out size k payload h (symbol_count-covers (length payload) size pos).0
