-- ===== src/NoiseUtil/Laws.antt =====
-- noiseutil/aead.go: nonces, and encryption with decryption.
use neth.Base.{
  ℕ, zero, suc, ◌+◌, ◌*◌, ◌/◌, ◌%◌, ◌^◌, ◌<◌, ◌≤◌, ◌≡◌, refl, sym, ap, ◌∙◌, List, some, set, get_or,
  length, length-set, get_or-set_self, get_or-set_ne, replicate, arith,
}
use neth.Bits.{mod-256_pow}
use neth.Crypto.{Aead}
use neth.NoiseUtil.{put_little_endian, counter_nonce, encrypt, decrypt}

-- The number whose little-endian bytes stand at an offset.
abbrev get_little_endian : ℕ → List ℕ → ℕ → ℕ
get_little_endian zero buf at = 0
get_little_endian (suc n) buf at = get_or buf at 0 + 256 * get_little_endian n buf (at + 1)

length-put_little_endian :
    (n : ℕ) (buf : List ℕ) (at v : ℕ) → length (put_little_endian n buf at v) ≡ length buf
unfolding put_little_endian
length-put_little_endian zero buf at v = refl
length-put_little_endian (suc n) buf at v =
    length-put_little_endian n (set buf at (v % 256)) (at + 1) (v / 256)
    ∙ length-set buf at (v % 256)

get_or-put_little_endian :
    (n : ℕ) (buf : List ℕ) (at v j : ℕ)
    → j < at
    → get_or (put_little_endian n buf at v) j 0 ≡ get_or buf j 0
unfolding put_little_endian
get_or-put_little_endian zero buf at v j h = refl
get_or-put_little_endian (suc n) buf at v j h =
    get_or-put_little_endian n (set buf at (v % 256)) (at + 1) (v / 256) j (omega arith)
    ∙ get_or-set_ne buf at j (v % 256) 0 (omega arith)

get-put_little_endian :
    (n : ℕ) (buf : List ℕ) (at v : ℕ)
    → at + n ≤ length buf
    → get_little_endian n (put_little_endian n buf at v) at ≡ v % 256 ^ n
unfolding put_little_endian
get-put_little_endian zero buf at v h = omega arith
get-put_little_endian (suc n) buf at v h =
    let next = set buf at (v % 256) in
    omega (
      arith,
      mod-256_pow n v,
      get-put_little_endian n next (at + 1) (v / 256) (rw length-set (omega arith)),
      get_or-put_little_endian n next (at + 1) (v / 256) at (omega arith),
      get_or-set_self buf at (v % 256) 0 (omega arith),
    )

counter-counter_nonce : (c : ℕ) → c < 2 ^ 64 → get_little_endian 8 (counter_nonce c) 0 ≡ c
unfolding counter_nonce
counter-counter_nonce c h = get-put_little_endian 8 (replicate 12 0) 0 c (omega arith) ∙ omega arith

-- Two 64-bit counters have the same nonce only if they are the same.
pub counter_nonce_injective :
    (a b : ℕ) → a < 2 ^ 64 → b < 2 ^ 64 → counter_nonce a ≡ counter_nonce b → a ≡ b
counter_nonce_injective a b ha hb same =
    sym (counter-counter_nonce a ha)
    ∙ ap (λ n. get_little_endian 8 n 0) same
    ∙ counter-counter_nonce b hb

module _ (aead : Aead) where
  open aead use {Cipher, unseal-seal}

  -- What `Encrypt` seals with a counter and a header, `Decrypt` opens with the same two.
  pub decrypt-encrypt :
      (c : Cipher) (counter : ℕ) (header plaintext : List ℕ)
      → decrypt aead c counter header (encrypt aead c counter header plaintext) ≡ some plaintext
  unfolding encrypt decrypt
  decrypt-encrypt c counter header plaintext =
      unseal-seal c (counter_nonce counter) plaintext header
