-- ===== src/Cert/Reading.antt =====
-- What is read of a certificate whose own extensions stand behind others.
use neth.Base.{
  ℕ, ◌≡◌, ◌≢◌, refl, sym, ap, subst, ◌∙◌, arith, false, List, [], ◌∷◌, ◌++◌, some, All, ◌=?◌,
  bytes_key, same_bytes_iff, Bool-cases, inl, inr, ok, guard, or_err, >>=-eq-ok, or_err-eq-ok,
}
use neth.Base.Text.{Text}
use neth.Net.{no_prefix}
use neth.Cert.{
  Library, RoundTrips, Extension, X509, Certificate, parse_x509_failed, oid_vpn_ip, oid_groups,
  oid_curve25519_key, read_extension, read_extensions, parse_der, parse, pem, pem_type_cert,
  no_pem_block, wrong_pem_type,
}
use neth.Cert.Laws.{parse-pem}

-- An extension that is not one of neth's.
abbrev pub IsForeign : Extension → Type 0
IsForeign e = (e.id ≢ oid_vpn_ip) × (e.id ≢ oid_groups) × (e.id ≢ oid_curve25519_key)

pub same_list : (gs : List Text) → elim gs [ [] ↦ [] | h ∷ hs ↦ h ∷ hs ] ≡ gs
same_list [] = refl
same_list (g ∷ gs) = refl

module _ (lib : Library) where
  -- The loop of parseDER writes neither the DER bytes nor the X.509 certificate.
  abbrev SameCore : Certificate → Certificate → Type 0
  SameCore c d = (d.raw ≡ c.raw) × (d.x509 ≡ c.x509)

  read_extension-SameCore :
      (c : Certificate) (ext : Extension) {d : Certificate}
      → read_extension lib c ext ≡ ok d
      → SameCore c d
  unfolding read_extension
  read_extension-SameCore c ext h = ground arith

  read_extensions-SameCore :
      (c : Certificate) (exts : List Extension) {d : Certificate}
      → read_extensions lib c exts ≡ ok d
      → SameCore c d
  unfolding read_extensions
  read_extensions-SameCore c [] h = ground arith
  read_extensions-SameCore c (ext ∷ exts) h =
      let (c', first, later) = >>=-eq-ok (read_extension lib c ext) _ h in
      let (raw, x509) = read_extensions-SameCore c' exts later in
      let (raw', x509') = read_extension-SameCore c ext first in (raw ∙ raw', x509 ∙ x509')

  different : (a b : List ℕ) → a ≢ b → (a =? b) ≡ false
  different a b h = elim (Bool-cases (a =? b)) [
    | inl same ↦ absurd (h ((same_bytes_iff a b).0 same))
    | inr no_match ↦ no_match
  ]

  read_extension-foreign :
      (c : Certificate) (ext : Extension) → IsForeign ext → read_extension lib c ext ≡ ok c
  unfolding read_extension
  read_extension-foreign c ext (not_ip, not_groups, not_key) =
      rw (different ext.id oid_vpn_ip not_ip) (
        rw (different ext.id oid_groups not_groups)
          (rw (different ext.id oid_curve25519_key not_key) refl))

  pub read_extensions-foreign :
      (c : Certificate) (others exts : List Extension)
      → All IsForeign others
      → read_extensions lib c (others ++ exts) ≡ read_extensions lib c exts
  unfolding read_extensions
  read_extensions-foreign c [] exts all = refl
  read_extensions-foreign c (e ∷ others) exts (foreign, all) =
      rw (read_extension-foreign c e foreign) (read_extensions-foreign c others exts all)

  -- The certificate before its extensions are read.
  abbrev pub blank : List ℕ → X509 → Certificate
  blank der x = record {
    raw = der;
    x509 = x;
    vpn_ip = no_prefix;
    groups = [];
    x25519_public_key = [];
  }

  pub parse_der-ok :
      (der : List ℕ) {c : Certificate}
      → parse_der lib der ≡ ok c
      → (c.raw ≡ der)
        × (lib.parse_certificate der ≡ some c.x509)
        × (read_extensions lib (blank der c.x509) c.x509.extensions ≡ ok c)
  unfolding parse_der
  parse_der-ok der {c} h =
      let (x, parsed, read) =
        >>=-eq-ok (or_err (lib.parse_certificate der) parse_x509_failed) _ h in
      let (raw, x509) = read_extensions-SameCore (blank der x) x.extensions read in
      (
        raw,
        or_err-eq-ok (lib.parse_certificate der) parse_x509_failed parsed ∙ ap some (sym x509),
        subst (λ (y : X509). read_extensions lib (blank der y) y.extensions ≡ ok c) (sym x509) read,
      )

  -- What parses is the DER form of its X.509 certificate.
  pub parse-parse_certificate :
      (body : List ℕ) {c : Certificate}
      → parse lib body ≡ ok c
      → (der : List ℕ) × (lib.parse_certificate der ≡ some c.x509)
  unfolding parse
  parse-parse_certificate body h =
      let (block, _, h1) = >>=-eq-ok (or_err (lib.pem_decode body) no_pem_block) _ h in
      let (_, _, h2) = >>=-eq-ok (guard (block.0 =? pem_type_cert) (wrong_pem_type block.0)) _ h1 in
      (block.1, (parse_der-ok block.1 h2).1)

  -- A parsed certificate is read back from its PEM text.
  pub parse-pem_of_parse_der :
      RoundTrips lib
      → (der : List ℕ) (c : Certificate) → parse_der lib der ≡ ok c
      → parse lib (pem lib c) ≡ ok c
  parse-pem_of_parse_der trips der c h =
      let (raw, _, _) = parse_der-ok der h in parse-pem lib trips c ∙ ap (parse_der lib) raw ∙ h
