-- ===== src/Pki.antt =====
-- pki.go: the certificates and the key that a node starts with.
-- `read_file` is os.ReadFile; each verification reads the clock for itself.
pub mod Laws
pub mod Material
use neth.Base.{
  ℕ, ◌≡◌, Bool, true, List, [], ◌∷◌, Option, none, some, ◌=?◌, bytes_key, Result, ok, err, ◌>>=◌,
  ◌>>◌, guard, or_err, map_err,
}
use neth.Base.Text.{Text}
use neth.Config.{PkiConfig}
use neth.Cert.{Library, Certificate, CertError, parse, verify, verify_ca}
use neth.Cert.Keys.{Curve, KeyError, parse_x25519_private_key}

pub record Pki : Type 0 where
  pub ca_certs : List Certificate
  pub node_cert : Certificate
  pub curve25519_key : List ℕ

pub data PkiError : Type 0 where
  read_ca_failed read_cert_failed read_key_failed : Text → PkiError
  parse_ca_failed parse_cert_failed cert_refused : CertError → PkiError
  parse_key_failed : KeyError → PkiError
  derive_failed key_mismatch : PkiError

module _ (lib : Library) (read_file : Text → Option (List ℕ)) where
  -- loadAndParseCA
  unfoldable pub load_and_parse_ca : Text → ℕ → Result PkiError Certificate
  load_and_parse_ca path now = do
    body ← or_err (read_file path) (read_ca_failed path)
    ca_cert ← map_err parse_ca_failed (parse lib body)
    map_err cert_refused (verify_ca lib ca_cert now)
    ok ca_cert

  -- loadAndParseNodeCert
  unfoldable pub load_and_parse_node_cert : Text → Certificate → ℕ → Result PkiError Certificate
  load_and_parse_node_cert path ca now = do
    body ← or_err (read_file path) (read_cert_failed path)
    node_cert ← map_err parse_cert_failed (parse lib body)
    map_err cert_refused (verify lib node_cert (ca ∷ []) now)
    ok node_cert

  -- loadAndVerifyKey
  unfoldable pub load_and_verify_key : Curve → Text → Certificate → Result PkiError (List ℕ)
  load_and_verify_key curve path node_cert = do
    body ← or_err (read_file path) (read_key_failed path)
    priv_key ← map_err parse_key_failed (parse_x25519_private_key lib body)
    derived_pub ← or_err (curve.x25519 priv_key curve.basepoint) derive_failed
    guard (derived_pub =? node_cert.x25519_public_key) key_mismatch
    ok priv_key

  -- LoadPKI, with the clock's readings for the two certificates.
  unfoldable pub load_pki : Curve → PkiConfig → ℕ → ℕ → Result PkiError Pki
  load_pki curve cfg ca_time node_time = do
    ca_cert ← load_and_parse_ca cfg.ca ca_time
    node_cert ← load_and_parse_node_cert cfg.cert ca_cert node_time
    priv_key ← load_and_verify_key curve cfg.key node_cert
    ok (record { ca_certs = ca_cert ∷ []; node_cert = node_cert; curve25519_key = priv_key })
