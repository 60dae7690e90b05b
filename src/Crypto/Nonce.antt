-- ===== src/Crypto/Nonce.antt =====
-- `SessionCipher::nonce` of crates/orbit-crypto/src/lib.rs.
use orbit_transfer.Prelude.{
  ℕ, ◌^◌, ◌<◌, ◌≡◌, refl, sym, ap, List, [], ◌∷◌, ◌++◌, arith, length, take, drop, ◌∙◌,
}
use orbit_transfer.Prelude.Le.{le_bytes, le_value, le_value-le_bytes, length-le_bytes}
use orbit_transfer.Crypto.{nonce}

take-append : (xs ys : List ℕ) → take (length xs) (xs ++ ys) ≡ xs
take-append [] ys = refl
take-append (x ∷ xs) ys = ap (λ t. x ∷ t) (take-append xs ys)

drop-append : (xs ys : List ℕ) → drop (length xs) (xs ++ ys) ≡ ys
drop-append [] ys = refl
drop-append (x ∷ xs) ys = drop-append xs ys

-- Two symbols whose nonces agree are of one session and have one id, session ids being below 2 ^ 64
-- and symbol ids below 2 ^ 32.
pub nonce_injective :
    (s t e f : ℕ)
    → s < 2 ^ 64
    → t < 2 ^ 64
    → e < 2 ^ 32
    → f < 2 ^ 32
    → nonce s e ≡ nonce t f
    → (s ≡ t) × (e ≡ f)
unfolding nonce
nonce_injective s t e f hs ht he hf h = (
  sym (le_value-le_bytes 8 s (omega arith))
      ∙ ap le_value (sym (front s e) ∙ ap (take 8) h ∙ front t f)
      ∙ le_value-le_bytes 8 t (omega arith),
  sym (le_value-le_bytes 4 e (omega arith))
      ∙ ap le_value (sym (back s e) ∙ ap (drop 8) h ∙ back t f)
      ∙ le_value-le_bytes 4 f (omega arith),
)
  where
    front : (v w : ℕ) → take 8 (le_bytes 8 v ++ le_bytes 4 w) ≡ le_bytes 8 v
    front v w =
        ap (λ n. take n (le_bytes 8 v ++ le_bytes 4 w)) (sym (length-le_bytes 8 v))
        ∙ take-append (le_bytes 8 v) (le_bytes 4 w)

    back : (v w : ℕ) → drop 8 (le_bytes 8 v ++ le_bytes 4 w) ≡ le_bytes 4 w
    back v w =
        ap (λ n. drop n (le_bytes 8 v ++ le_bytes 4 w)) (sym (length-le_bytes 8 v))
        ∙ drop-append (le_bytes 8 v) (le_bytes 4 w)
