-- ===== src/Crypto.antt =====
-- The cryptography that the program calls from Go's library and from flynn/noise, as interfaces
-- with the documented laws that the theorems use.
use neth.Base.{ℕ, ◌≡◌, List, Option, some, length}

-- crypto/cipher.AEAD: a ciphertext opens under the key, nonce and additional data it was sealed
-- with.
pub record Aead : Type 1 where
  pub Cipher : Type 0
  pub seal : Cipher → List ℕ → List ℕ → List ℕ → List ℕ
  pub unseal : Cipher → List ℕ → List ℕ → List ℕ → Option (List ℕ)
  pub unseal-seal :
      (c : Cipher) (nonce plaintext extra : List ℕ)
      → unseal c nonce (seal c nonce plaintext extra) extra ≡ some plaintext

-- crypto/sha256 and crypto/hmac: a digest has 32 bytes; `mac key` is taken over all bytes written.
pub record Hashes : Type 0 where
  pub sha256 : List ℕ → List ℕ
  pub mac : List ℕ → List ℕ → List ℕ
  pub length-sha256 : (s : List ℕ) → length (sha256 s) ≡ 32
