-- ===== src/NoiseUtil.antt =====
-- noiseutil/aead.go: sealing packets with a nonce made of the packet counter.
pub mod Laws
use neth.Base.{ℕ, zero, suc, ◌+◌, ◌*◌, ◌/◌, ◌%◌, List, Option, set, get_or, replicate}
use neth.Crypto.{Aead}

-- binary.LittleEndian.PutUint64(buf[at:], v), over `n` bytes.
pub put_little_endian : ℕ → List ℕ → ℕ → ℕ → List ℕ
put_little_endian zero buf at v = buf
put_little_endian (suc n) buf at v = put_little_endian n (set buf at (v % 256)) (at + 1) (v / 256)

-- CounterNonce
pub counter_nonce : ℕ → List ℕ
unfolding put_little_endian
counter_nonce counter = put_little_endian 8 (replicate 12 0) 0 counter

module _ (aead : Aead) where
  open aead use {Cipher, seal, unseal}

  -- Encrypt
  unfoldable pub encrypt : Cipher → ℕ → List ℕ → List ℕ → List ℕ
  encrypt c counter header plaintext = seal c (counter_nonce counter) plaintext header

  -- Decrypt
  pub decrypt : Cipher → ℕ → List ℕ → List ℕ → Option (List ℕ)
  decrypt c counter header ciphertext = unseal c (counter_nonce counter) ciphertext header
