-- ===== src/Crypto.antt =====
-- crates/orbit-crypto/src/lib.rs: symbols sealed under a nonce made of the session and the symbol.
-- ChaCha20-Poly1305 and Argon2id are other crates, and stand as the parameters `encrypt`, `decrypt`
-- and `derive`.
pub mod Nonce
use orbit_transfer.Prelude.{
  ℕ, ◌+◌, ◌*◌, ◌^◌, ◌<◌, ◌≡◌, refl, sym, ap, List, ◌++◌, arith, length, take, drop, Option, none,
  some, ◌∙◌,
}
use orbit_transfer.Prelude.Le.{le_bytes}

abbrev pub key_len : ℕ
key_len = 32

-- The primitives: a key from a secret, and the two directions of the cipher on a key, a nonce,
-- associated data and a message.
pub record Primitives : Type 0 where
  pub derive : List ℕ → List ℕ
  pub encrypt : List ℕ → List ℕ → List ℕ → List ℕ → List ℕ
  pub decrypt : List ℕ → List ℕ → List ℕ → List ℕ → Option (List ℕ)

-- What the cipher documents: a sealed message opens under the same key, nonce and data.
abbrev pub Opens : Primitives → Type 0
Opens c =
    (key nonce aad msg : List ℕ) → c.decrypt key nonce aad (c.encrypt key nonce aad msg) ≡ some msg

pub record SessionCipher : Type 0 where
  pub key : List ℕ

unfoldable pub nonce : ℕ → ℕ → List ℕ
nonce session_id esi = le_bytes 8 session_id ++ le_bytes 4 esi

module _ (c : Primitives) where
  unfoldable pub new : List ℕ → SessionCipher
  new secret = record { key = c.derive secret }

  unfoldable pub seal_symbol : SessionCipher → ℕ → ℕ → List ℕ → List ℕ
  unfolding nonce
  seal_symbol cipher session_id esi plain =
      c.encrypt cipher.key (nonce session_id esi) (nonce session_id esi) plain

  unfoldable pub open_symbol : SessionCipher → ℕ → ℕ → List ℕ → Option (List ℕ)
  unfolding nonce
  open_symbol cipher session_id esi sealed =
      c.decrypt cipher.key (nonce session_id esi) (nonce session_id esi) sealed
