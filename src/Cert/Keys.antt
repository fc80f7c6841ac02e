-- ===== src/Cert/Keys.antt =====
-- cert/keys.go: key pairs for Noise, and the key files.
-- curve25519, ed25519 and the PKCS #8 form are the parameters `Curve` and `Signatures`.
use neth.Base.{
  ℕ, bit_and, bit_or, List, Option, length, set, get_or, ◌==◌, ◌=?◌, bytes_key, Result, ok, ◌>>=◌,
  ◌>>◌, guard, or_err,
}
use neth.Base.Text.{Text, text}
use neth.Cert.{Library}

-- golang.org/x/crypto/curve25519
pub record Curve : Type 0 where
  pub x25519 : List ℕ → List ℕ → Option (List ℕ)
  pub basepoint : List ℕ

-- crypto/ed25519: a key of a seed, and its public key. A key in PKCS #8 may be of another type.
pub record Signatures : Type 1 where
  pub PrivateKey : Type 0
  pub new_key : List ℕ → PrivateKey
  pub public_of : PrivateKey → List ℕ
  pub marshal_pkcs8 : PrivateKey → Option (List ℕ)
  pub parse_pkcs8 : List ℕ → Option (Option PrivateKey)

pub data KeyError : Type 0 where
  generate_failed derive_failed marshal_failed no_pem_block parse_failed not_ed25519 : KeyError
  expected_32_bytes : ℕ → KeyError
  wrong_pem_type : Text → KeyError

abbrev pub pem_type_curve25519_key : Text
pem_type_curve25519_key = text "NETH CURVE25519 PRIVATE KEY"

-- The three assignments that clamp the scalar; the key has 32 bytes.
unfoldable pub clamp : List ℕ → List ℕ
clamp priv =
    let low = set priv 0 (bit_and (get_or priv 0 0) 248) in
    let high = set low 31 (bit_and (get_or low 31 0) 127) in
    set high 31 (bit_or (get_or high 31 0) 64)

-- GenerateX25519KeyPair; `random` is what crypto/rand.Read fills the 32 bytes with.
unfoldable pub generate_x25519_key_pair :
    Curve → Option (List ℕ) → Result KeyError (List ℕ × List ℕ)
generate_x25519_key_pair curve random = do
  drawn ← or_err random generate_failed
  let priv = clamp drawn
  public ← or_err (curve.x25519 priv curve.basepoint) derive_failed
  ok (priv, public)

module _ (lib : Library) where
  -- MarshalX25519PrivateKey
  unfoldable pub marshal_x25519_private_key : List ℕ → Result KeyError (List ℕ)
  marshal_x25519_private_key key = do
    guard (length key == 32) (expected_32_bytes (length key))
    ok (lib.pem_encode pem_type_curve25519_key key)

  -- ParseX25519PrivateKey
  unfoldable pub parse_x25519_private_key : List ℕ → Result KeyError (List ℕ)
  parse_x25519_private_key pem_bytes = do
    block ← or_err (lib.pem_decode pem_bytes) no_pem_block
    guard (block.0 =? pem_type_curve25519_key) (wrong_pem_type block.0)
    guard (length block.1 == 32) (expected_32_bytes (length block.1))
    ok block.1

  module _ (sigs : Signatures) where
    -- MarshalEd25519PrivateKey
    unfoldable pub marshal_ed25519_private_key : sigs.PrivateKey → Result KeyError (List ℕ)
    marshal_ed25519_private_key key = do
      der ← or_err (sigs.marshal_pkcs8 key) marshal_failed
      ok (lib.pem_encode (text "PRIVATE KEY") der)

    -- ParseEd25519PrivateKey
    unfoldable pub parse_ed25519_private_key : List ℕ → Result KeyError (sigs.PrivateKey)
    parse_ed25519_private_key pem_bytes = do
      block ← or_err (lib.pem_decode pem_bytes) no_pem_block
      key ← or_err (sigs.parse_pkcs8 block.1) parse_failed
      or_err key not_ed25519
