-- ===== src/Cert/Issue.antt =====
-- cert/ca.go: certificates of authorities and of nodes.
-- crypto/rand gives a seed and a serial number, each of which can fail; x509.CreateCertificate is
-- the field of `Issuer`.
use neth.Base.{
  ℕ, suc, ◌+◌, ◌-◌, ◌^◌, Bool, true, false, List, [], Option, ltb, if◌then◌else◌, Result, ok, ◌>>=◌,
  or_err,
}
use neth.Base.Int.{ℤ, pos, negsuc}
use neth.Base.Text.{Text}
use neth.Net.{Prefix}
use neth.Cert.{
  Library, Extension, X509, Certificate, CertError, generate_key_failed, serial_panics,
  create_failed, sign_extensions, parse_der,
}
use neth.Cert.Keys.{Signatures}

-- The fields that the program sets of an x509.Certificate used as a template. The key usage is its
-- bits: 1 for digital signatures, 32 for certificates and 64 for revocation lists.
pub record Template : Type 0 where
  pub serial_number : ℕ
  pub common_name : Text
  pub not_before : ℤ
  pub not_after : ℤ
  pub is_ca : Bool
  pub key_usage : ℕ
  pub basic_constraints_valid : Bool
  pub extra_extensions : List Extension

-- The parent of a new certificate: the template itself, or a certificate.
pub data Parent : Type 0 where
  itself : Parent
  issued_by : X509 → Parent

-- x509.CreateCertificate without its source of randomness, which ed25519 does not use.
pub record Issuer (PrivateKey : Type 0) : Type 0 where
  pub create_certificate : Template → Parent → List ℕ → PrivateKey → Option (List ℕ)

-- Time.Add on numbers of nanoseconds; times are far from the ends of their range.
unfoldable pub add_duration : ℕ → ℤ → ℤ
add_duration now (pos d) = pos (now + d)
add_duration now (negsuc d) = if ltb d now then pos (now - suc d) else negsuc (d - now)

-- newSerial: rand.Int below 2^128, or a panic.
unfoldable pub new_serial : (ℕ → Option ℕ) → Result CertError ℕ
new_serial rand_int = or_err (rand_int (2 ^ 128)) serial_panics

module _ (lib : Library) (sigs : Signatures) (issuer : Issuer (sigs.PrivateKey)) where
  -- GenerateCA
  unfoldable pub generate_ca :
      Option (List ℕ)
      → (ℕ → Option ℕ)
      → ℕ
      → Text
      → ℤ
      → Result CertError (Certificate × sigs.PrivateKey)
  generate_ca random rand_int now name duration = do
    seed ← or_err random generate_key_failed
    let priv = sigs.new_key seed
    serial ← new_serial rand_int
    der ←
        or_err
          (issuer.create_certificate
            (record {
              serial_number = serial;
              common_name = name;
              not_before = pos now;
              not_after = add_duration now duration;
              is_ca = true;
              key_usage = 96;
              basic_constraints_valid = true;
              extra_extensions = [];
            })
            itself (sigs.public_of priv) priv)
          create_failed
    cert ← parse_der lib der
    ok (cert, priv)

  -- Sign
  unfoldable pub sign :
      Option (List ℕ)
      → (ℕ → Option ℕ)
      → ℕ
      → Certificate
      → Text
      → Prefix
      → List Text
      → List ℕ
      → ℤ
      → sigs.PrivateKey
      → Result CertError Certificate
  sign random rand_int now ca name vpn_ip groups curve25519_pub duration ca_key = do
    seed ← or_err random generate_key_failed
    extras ← sign_extensions lib vpn_ip groups curve25519_pub
    serial ← new_serial rand_int
    der ←
        or_err
          (issuer.create_certificate
            (record {
              serial_number = serial;
              common_name = name;
              not_before = pos now;
              not_after = add_duration now duration;
              is_ca = false;
              key_usage = 1;
              basic_constraints_valid = false;
              extra_extensions = extras;
            })
            (issued_by ca.x509) (sigs.public_of (sigs.new_key seed)) ca_key)
          create_failed
    parse_der lib der
