-- ===== src/Pki/Material.antt =====
-- pki.go: the facts about the three files under which LoadPKI succeeds.
use neth.Base.{
  ℕ, ◌≡◌, ◌↔◌, refl, sym, ◌∙◌, ap, subst, arith, true, false, List, [], ◌∷◌, Option, some, length,
  ◌=?◌, ◌==◌, bytes_key, same_bytes_iff, ok, guard, or_err, >>=-eq-ok, or_err-eq-ok, guard-eq-ok,
  ok_injective,
}
use neth.Base.Text.{Text, text}
use neth.Config.{PkiConfig}
use neth.Cert.{
  Library, Certificate, parse, parse_der, no_pem_block, wrong_pem_type, pem_type_cert,
  read_extensions, verify, verify_ca,
}
use neth.Cert.Keys.{
  Curve, parse_x25519_private_key, pem_type_curve25519_key, expected_32_bytes,
  no_pem_block as no_key_block, wrong_pem_type as wrong_key_type,
}
use neth.Cert.Reading.{blank, parse_der-ok}
use neth.Pki.{Pki, load_pki}
use neth.Pki.Laws.{IsLoaded, load_pki-IsLoaded}

module _ (lib : Library) where
  -- A PEM text of one X.509 certificate, with what is read of its extensions.
  pub record IsPemCert (body : List ℕ) (c : Certificate) : Type 0 where
    pub der : List ℕ
    pub is_pem : lib.pem_decode body ≡ some (text "CERTIFICATE", der)
    pub is_raw : c.raw ≡ der
    pub is_x509 : lib.parse_certificate der ≡ some c.x509
    pub is_complete : read_extensions lib (blank lib der c.x509) c.x509.extensions ≡ ok c

  parse-IsPemCert : (body : List ℕ) (c : Certificate) → (parse lib body ≡ ok c) ↔ IsPemCert body c
  unfolding parse parse_der
  parse-IsPemCert body c = (
    λ h.
        let (block, decoded, h1) = >>=-eq-ok (or_err (lib.pem_decode body) no_pem_block) _ h in
        let (_, kind, h2) =
          >>=-eq-ok (guard (block.0 =? pem_type_cert) (wrong_pem_type block.0)) _ h1 in
        let is_cert =
          (same_bytes_iff block.0 pem_type_cert).0
            (guard-eq-ok (block.0 =? pem_type_cert) (wrong_pem_type block.0) kind) in
        let (raw, known, complete) = parse_der-ok lib block.1 h2 in
        record {
          der = block.1;
          is_pem =
              or_err-eq-ok (lib.pem_decode body) no_pem_block decoded
              ∙ ap (λ (k : Text). some (k, block.1)) is_cert;
          is_raw = raw;
          is_x509 = known;
          is_complete = complete;
        },
    λ f. rw f.is_pem (rw f.is_x509 f.is_complete),
  )

  verify_iff :
      (node ca : Certificate) (now : ℕ)
      → (verify lib node (ca ∷ []) now ≡ ok tt)
        ↔ (node.x509.is_ca ≡ false) × (lib.verifies node.x509 (ca.x509 ∷ []) now ≡ true)
  unfolding verify
  verify_iff node ca now = (λ h. ground arith, λ (no_ca, good). ground arith)

  verify_ca_iff :
      (ca : Certificate) (now : ℕ)
      → (verify_ca lib ca now ≡ ok tt)
        ↔ (ca.x509.is_ca ≡ true) × (lib.verifies ca.x509 (ca.x509 ∷ []) now ≡ true)
  unfolding verify_ca
  verify_ca_iff ca now = (λ h. ground arith, λ (is_ca, good). ground arith)

  -- A PEM text of a Curve25519 private key of 32 bytes.
  pub record IsPemKey (body key : List ℕ) : Type 0 where
    pub is_pem : lib.pem_decode body ≡ some (text "NETH CURVE25519 PRIVATE KEY", key)
    pub has_32_bytes : length key ≡ 32

  parse_x25519_private_key-IsPemKey :
      (body key : List ℕ) → (parse_x25519_private_key lib body ≡ ok key) ↔ IsPemKey body key
  unfolding parse_x25519_private_key
  parse_x25519_private_key-IsPemKey body key = (
    λ h.
        let (block, decoded, h1) = >>=-eq-ok (or_err (lib.pem_decode body) no_key_block) _ h in
        let (_, kind, h2) =
          >>=-eq-ok (guard (block.0 =? pem_type_curve25519_key) (wrong_key_type block.0)) _ h1 in
        let (_, long, same) =
          >>=-eq-ok (guard (length block.1 == 32) (expected_32_bytes (length block.1))) _ h2 in
        let is_key =
          (same_bytes_iff block.0 pem_type_curve25519_key).0
            (guard-eq-ok (block.0 =? pem_type_curve25519_key) (wrong_key_type block.0) kind) in
        let is_long =
          guard-eq-ok (length block.1 == 32) (expected_32_bytes (length block.1)) long in
        record {
          is_pem =
              or_err-eq-ok (lib.pem_decode body) no_key_block decoded
              ∙ (λ i. some (is_key i, ok_injective same i));
          has_32_bytes = ap length (sym (ok_injective same)) ∙ ground arith;
        },
    λ f. rw f.is_pem (rw f.has_32_bytes refl),
  )

module _ (lib : Library) (read_file : Text → Option (List ℕ)) where
  -- What the three files hold, and what holds of the two certificates and the key.
  pub record IsMaterial (curve : Curve) (cfg : PkiConfig) (ca_time node_time : ℕ) (pki : Pki)
      : Type 0 where
    pub ca : Certificate
    pub one_ca : pki.ca_certs ≡ ca ∷ []
    pub ca_body : List ℕ
    pub ca_read : read_file cfg.ca ≡ some ca_body
    pub ca_pem : IsPemCert lib ca_body ca
    pub ca_is_ca : ca.x509.is_ca ≡ true
    pub ca_verifies : lib.verifies ca.x509 (ca.x509 ∷ []) ca_time ≡ true
    pub cert_body : List ℕ
    pub cert_read : read_file cfg.cert ≡ some cert_body
    pub cert_pem : IsPemCert lib cert_body pki.node_cert
    pub cert_is_no_ca : pki.node_cert.x509.is_ca ≡ false
    pub cert_verifies : lib.verifies pki.node_cert.x509 (ca.x509 ∷ []) node_time ≡ true
    pub key_body : List ℕ
    pub key_read : read_file cfg.key ≡ some key_body
    pub key_pem : IsPemKey lib key_body pki.curve25519_key
    pub is_pair :
        curve.x25519 pki.curve25519_key curve.basepoint ≡ some pki.node_cert.x25519_public_key

  IsLoaded-IsMaterial :
      (curve : Curve) (cfg : PkiConfig) (ca_time node_time : ℕ) (pki : Pki)
      → IsLoaded lib read_file curve cfg ca_time node_time pki
      → IsMaterial curve cfg ca_time node_time pki
  IsLoaded-IsMaterial curve cfg ca_time node_time pki l =
      let (is_ca, self_signed) = (verify_ca_iff lib l.ca ca_time).0 l.ca_valid in
      let (no_ca, good) = (verify_iff lib pki.node_cert l.ca node_time).0 (
        subst (λ (cas : List Certificate). verify lib pki.node_cert cas node_time ≡ ok tt) l.one_ca
          l.cert_valid) in
      record {
        ca = l.ca;
        one_ca = l.one_ca;
        ca_body = l.ca_file.body;
        ca_read = l.ca_file.is_read;
        ca_pem = (parse-IsPemCert lib l.ca_file.body l.ca).0 l.ca_file.is_parsed;
        ca_is_ca = is_ca;
        ca_verifies = self_signed;
        cert_body = l.cert_file.body;
        cert_read = l.cert_file.is_read;
        cert_pem = (parse-IsPemCert lib l.cert_file.body pki.node_cert).0 l.cert_file.is_parsed;
        cert_is_no_ca = no_ca;
        cert_verifies = good;
        key_body = l.key_file.body;
        key_read = l.key_file.is_read;
        key_pem =
            (parse_x25519_private_key-IsPemKey lib l.key_file.body pki.curve25519_key).0
              l.key_file.is_parsed;
        is_pair = l.key_file.is_pair;
      }

  IsMaterial-IsLoaded :
      (curve : Curve) (cfg : PkiConfig) (ca_time node_time : ℕ) (pki : Pki)
      → IsMaterial curve cfg ca_time node_time pki
      → IsLoaded lib read_file curve cfg ca_time node_time pki
  IsMaterial-IsLoaded curve cfg ca_time node_time pki m = record {
    ca = m.ca;
    one_ca = m.one_ca;
    ca_file = record {
      body = m.ca_body;
      is_read = m.ca_read;
      is_parsed = (parse-IsPemCert lib m.ca_body m.ca).1 m.ca_pem;
    };
    ca_valid = (verify_ca_iff lib m.ca ca_time).1 (m.ca_is_ca, m.ca_verifies);
    cert_file = record {
      body = m.cert_body;
      is_read = m.cert_read;
      is_parsed = (parse-IsPemCert lib m.cert_body pki.node_cert).1 m.cert_pem;
    };
    cert_valid =
        subst (λ (cas : List Certificate). verify lib pki.node_cert cas node_time ≡ ok tt)
          (sym m.one_ca)
          ((verify_iff lib pki.node_cert m.ca node_time).1 (m.cert_is_no_ca, m.cert_verifies));
    key_file = record {
      body = m.key_body;
      is_read = m.key_read;
      is_parsed = (parse_x25519_private_key-IsPemKey lib m.key_body pki.curve25519_key).1 m.key_pem;
      is_pair = m.is_pair;
    };
  }

  -- `LoadPKI` succeeds exactly when the three files can be read and hold one CERTIFICATE block each
  -- of two X.509 certificates whose neth extensions can be read and a NETH CURVE25519 PRIVATE KEY
  -- block of 32 bytes, the first certificate is a CA that X.509 verifies against itself, the second
  -- is not a CA and X.509 verifies it against the first, and the key's public key is the one in the
  -- second certificate. It returns these two certificates and this key.
  pub load_pki_iff :
      (curve : Curve) (cfg : PkiConfig) (ca_time node_time : ℕ) (pki : Pki)
      → (load_pki lib read_file curve cfg ca_time node_time ≡ ok pki)
        ↔ IsMaterial curve cfg ca_time node_time pki
  load_pki_iff curve cfg ca_time node_time pki = (
    λ h.
        IsLoaded-IsMaterial curve cfg ca_time node_time pki
          ((load_pki-IsLoaded lib read_file curve cfg ca_time node_time pki).0 h),
    λ m.
        (load_pki-IsLoaded lib read_file curve cfg ca_time node_time pki).1
          (IsMaterial-IsLoaded curve cfg ca_time node_time pki m),
  )
