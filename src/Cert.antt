-- ===== src/Cert.antt =====
-- cert/: certificates with neth's private extensions.
-- The X.509, PEM and ASN.1 libraries are parameters: `Library` holds their functions and the
-- documented round trips. A key or an extension is a list of bytes.
pub mod Laws
pub mod Keys
pub mod Issue
pub mod Reading
pub mod Chain
use neth.Base.{
  ℕ, zero, suc, ◌+◌, ◌*◌, ◌≡◌, Bool, true, false, not, List, [], ◌∷◌, ◌++◌, map, Option, none, some,
  length, replicate, get_or, if◌then◌else◌, ◌==◌, ◌=?◌, bytes_key, Result, ok, err, ◌>>=◌, ◌>>◌,
  guard, or_err,
}
use neth.Base.Int.{ℤ, pos, negsuc}
use neth.Base.Text.{Text, text}
use neth.Net.{Addr, no_addr, ip4, ip6, Prefix, no_prefix, prefix_from}
use neth.Header.{put_big_endian, get_big_endian}
use neth.Crypto.{Hashes}

-- oid.go
abbrev pub oid_vpn_ip : List ℕ
oid_vpn_ip = 1 ∷ 3 ∷ 6 ∷ 1 ∷ 4 ∷ 1 ∷ 65535 ∷ 1 ∷ 1 ∷ []

abbrev pub oid_groups : List ℕ
oid_groups = 1 ∷ 3 ∷ 6 ∷ 1 ∷ 4 ∷ 1 ∷ 65535 ∷ 1 ∷ 2 ∷ []

abbrev pub oid_curve25519_key : List ℕ
oid_curve25519_key = 1 ∷ 3 ∷ 6 ∷ 1 ∷ 4 ∷ 1 ∷ 65535 ∷ 1 ∷ 3 ∷ []

-- pkix.Extension
pub record Extension : Type 0 where
  pub id : List ℕ
  pub value : List ℕ

-- The key of a certificate, which is of some type: an ed25519.PublicKey, or another.
pub data PublicKey : Type 0 where
  ed25519_key : List ℕ → PublicKey
  other_key : PublicKey

-- The fields of x509.Certificate that the program reads, and the bits of KeyUsage, which the
-- library's Verify reads. The bits are those of a template: 32 is the signing of certificates.
pub record X509 : Type 0 where
  pub is_ca : Bool
  pub common_name : Text
  pub extensions : List Extension
  pub public_key : PublicKey
  pub not_before : ℤ
  pub not_after : ℤ
  pub key_usage : ℕ

-- The `vpnIPValue` of extensions.go.
pub record VpnIpValue : Type 0 where
  pub ip : List ℕ
  pub prefix : ℤ

pub record Library : Type 0 where
  pub parse_certificate : List ℕ → Option X509
  pub verifies : X509 → List X509 → ℕ → Bool
  pub pem_decode : List ℕ → Option (Text × List ℕ)
  pub pem_encode : Text → List ℕ → List ℕ
  pub marshal_vpn_ip : VpnIpValue → Option (List ℕ)
  pub unmarshal_vpn_ip : List ℕ → Option VpnIpValue
  pub marshal_strings : List Text → Option (List ℕ)
  pub unmarshal_strings : List ℕ → Option (List Text)
  pub marshal_octets : List ℕ → Option (List ℕ)
  pub unmarshal_octets : List ℕ → Option (List ℕ)

-- The documented round trips of encoding/pem and encoding/asn1.
pub record RoundTrips (lib : Library) : Type 0 where
  pub pem :
      (kind : Text) (body : List ℕ) → lib.pem_decode (lib.pem_encode kind body) ≡ some (kind, body)
  pub vpn_ip :
      (v : VpnIpValue) (der : List ℕ)
      → lib.marshal_vpn_ip v ≡ some der
      → lib.unmarshal_vpn_ip der ≡ some v
  pub strings :
      (v : List Text) (der : List ℕ)
      → lib.marshal_strings v ≡ some der
      → lib.unmarshal_strings der ≡ some v
  pub octets :
      (v der : List ℕ) → lib.marshal_octets v ≡ some der → lib.unmarshal_octets der ≡ some v

pub data CertError : Type 0 where
  encode_vpn_ip_failed encode_groups_failed encode_key_failed : CertError
  decode_vpn_ip_failed decode_groups_failed decode_key_failed : CertError
  unexpected_ip_length expected_32_bytes : ℕ → CertError
  no_pem_block parse_x509_failed : CertError
  wrong_pem_type : Text → CertError
  is_a_ca not_a_ca verify_failed : CertError
  generate_key_failed serial_panics create_failed : CertError

-- Addr.As4 and As16, with Is4: the zero address has the bytes of `::`.
unfoldable pub addr_bytes : Addr → List ℕ
addr_bytes (ip4 a) = put_big_endian 4 (replicate 4 0) 0 a
addr_bytes (ip6 a) = put_big_endian 16 (replicate 16 0) 0 a
addr_bytes no_addr = replicate 16 0

-- Prefix.Bits
unfoldable pub bits_of : Option ℕ → ℤ
bits_of none = negsuc 0
bits_of (some b) = pos b

-- netip.AddrFrom4 and AddrFrom16 by the number of bytes.
unfoldable pub addr_from_bytes : List ℕ → Result CertError Addr
addr_from_bytes ip =
    if length ip == 4
    then ok (ip4 (get_big_endian 4 ip 0))
    else if length ip == 16
    then ok (ip6 (get_big_endian 16 ip 0))
    else err (unexpected_ip_length (length ip))

pub record Certificate : Type 0 where
  pub raw : List ℕ
  pub x509 : X509
  pub vpn_ip : Prefix
  pub groups : List Text
  pub x25519_public_key : List ℕ

-- IsCA, Name and X509
abbrev pub is_ca : Certificate → Bool
is_ca c = c.x509.is_ca

abbrev pub name : Certificate → Text
name c = c.x509.common_name

-- Fingerprint
unfoldable pub fingerprint : Hashes → Certificate → List ℕ
fingerprint hashes c = hashes.sha256 c.raw

abbrev pub pem_type_cert : Text
pem_type_cert = text "CERTIFICATE"

module _ (lib : Library) where
  unfoldable pub encode_vpn_ip : Prefix → Result CertError Extension
  encode_vpn_ip p = do
    val ←
        or_err (lib.marshal_vpn_ip (record { ip = addr_bytes p.addr; prefix = bits_of p.bits }))
          encode_vpn_ip_failed
    ok (record { id = oid_vpn_ip; value = val })

  unfoldable pub decode_vpn_ip : Extension → Result CertError Prefix
  decode_vpn_ip ext = do
    v ← or_err (lib.unmarshal_vpn_ip ext.value) decode_vpn_ip_failed
    addr ← addr_from_bytes v.ip
    ok (prefix_from addr v.prefix)

  unfoldable pub encode_groups : List Text → Result CertError Extension
  encode_groups groups = do
    val ← or_err (lib.marshal_strings groups) encode_groups_failed
    ok (record { id = oid_groups; value = val })

  pub decode_groups : Extension → Result CertError (List Text)
  decode_groups ext = or_err (lib.unmarshal_strings ext.value) decode_groups_failed

  unfoldable pub encode_curve25519_key : List ℕ → Result CertError Extension
  encode_curve25519_key key = do
    guard (length key == 32) (expected_32_bytes (length key))
    val ← or_err (lib.marshal_octets key) encode_key_failed
    ok (record { id = oid_curve25519_key; value = val })

  unfoldable pub decode_curve25519_key : Extension → Result CertError (List ℕ)
  decode_curve25519_key ext = do
    b ← or_err (lib.unmarshal_octets ext.value) decode_key_failed
    guard (length b == 32) (expected_32_bytes (length b))
    ok b

  -- The loop body of parseDER: one extension.
  unfoldable pub read_extension : Certificate → Extension → Result CertError Certificate
  read_extension c ext =
      if ext.id =? oid_vpn_ip
      then (do p ← decode_vpn_ip ext; ok (record c { vpn_ip = p }))
      else if ext.id =? oid_groups
      then (do gs ← decode_groups ext; ok (record c { groups = gs }))
      else if ext.id =? oid_curve25519_key
      then (do key ← decode_curve25519_key ext; ok (record c { x25519_public_key = key }))
      else ok c

  unfoldable pub read_extensions : Certificate → List Extension → Result CertError Certificate
  read_extensions c [] = ok c
  read_extensions c (ext ∷ exts) = do c' ← read_extension c ext; read_extensions c' exts

  unfoldable pub parse_der : List ℕ → Result CertError Certificate
  parse_der der = do
    x ← or_err (lib.parse_certificate der) parse_x509_failed
    read_extensions
        (record { raw = der; x509 = x; vpn_ip = no_prefix; groups = []; x25519_public_key = [] })
        x.extensions

  -- Parse
  unfoldable pub parse : List ℕ → Result CertError Certificate
  parse pem_bytes = do
    block ← or_err (lib.pem_decode pem_bytes) no_pem_block
    guard (block.0 =? pem_type_cert) (wrong_pem_type block.0)
    parse_der block.1

  -- PEM
  unfoldable pub pem : Certificate → List ℕ
  pem c = lib.pem_encode pem_type_cert c.raw

  -- Verify, at a time.
  unfoldable pub verify : Certificate → List Certificate → ℕ → Result CertError (Unit {0})
  verify cert ca_pool now = do
    guard (not cert.x509.is_ca) is_a_ca
    guard (lib.verifies cert.x509 (map (λ (ca : Certificate). ca.x509) ca_pool) now) verify_failed
    ok tt

  -- VerifyCA
  unfoldable pub verify_ca : Certificate → ℕ → Result CertError (Unit {0})
  verify_ca ca now = do
    guard (ca.x509.is_ca) not_a_ca
    guard (lib.verifies ca.x509 (ca.x509 ∷ []) now) verify_failed
    ok tt

  -- The extensions that Sign puts into a certificate, in order.
  unfoldable pub sign_extensions : Prefix → List Text → List ℕ → Result CertError (List Extension)
  sign_extensions vpn_ip groups curve25519_pub = do
    ext_vpn_ip ← encode_vpn_ip vpn_ip
    ext_curve ← encode_curve25519_key curve25519_pub
    elim groups [
      | [] ↦ ok (ext_vpn_ip ∷ ext_curve ∷ [])
      | g ∷ gs ↦
          encode_groups (g ∷ gs) >>= λ ext_groups. ok (ext_vpn_ip ∷ ext_curve ∷ ext_groups ∷ [])
    ]
