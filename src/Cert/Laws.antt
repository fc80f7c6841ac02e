-- ===== src/Cert/Laws.antt =====
-- cert/: the encodings of the extensions, and verification.
use neth.Base.{
  ℕ, ◌^◌, ◌≤◌, ◌<◌, ◌≡◌, ◌≢◌, refl, ap, subst, ◌∙◌, arith, List, [], ◌∷◌, Option, none, some,
  length, replicate, ◌==◌, bytes_key, ok, guard, or_err, >>=-eq-ok, or_err-eq-ok, guard-eq-ok,
  ok_injective,
}
use neth.Base.Int.{pos}
use neth.Base.Text.{Text}
use neth.Net.{Addr, no_addr, ip4, ip6, Prefix, prefix_from}
use neth.Header.Wire.{length-put_big_endian, get-put_big_endian}
use neth.Cert.{
  Library, RoundTrips, Extension, Certificate, VpnIpValue, encode_vpn_ip, decode_vpn_ip,
  encode_groups, decode_groups, encode_curve25519_key, decode_curve25519_key, addr_bytes, bits_of,
  addr_from_bytes, read_extension, read_extensions, parse_der, parse, pem, pem_type_cert,
  sign_extensions, verify, verify_ca, oid_vpn_ip, oid_groups, oid_curve25519_key,
  encode_vpn_ip_failed, encode_groups_failed, encode_key_failed, expected_32_bytes,
}

-- An IPv4 or IPv6 address with a prefix length that fits it.
abbrev pub InRange : Addr → Option ℕ → Type 0
InRange (ip4 a) (some b) = (a < 2 ^ 32) × (b ≤ 32)
InRange (ip6 a) (some b) = (a < 2 ^ 128) × (b ≤ 128)
InRange _ _ = ⊥

module _ (lib : Library) (trips : RoundTrips lib) where
  -- The PEM text of a certificate parses as its DER bytes do.
  pub parse-pem : (c : Certificate) → parse lib (pem lib c) ≡ parse_der lib c.raw
  unfolding parse pem
  parse-pem c = rw (trips.pem pem_type_cert c.raw) refl

  decode_groups-encode_groups :
      (groups : List Text) (ext : Extension)
      → encode_groups lib groups ≡ ok ext
      → (ext.id ≡ oid_groups) × (decode_groups lib ext ≡ ok groups)
  unfolding encode_groups decode_groups
  decode_groups-encode_groups groups ext h =
      let (val, there, same) =
        >>=-eq-ok (or_err (lib.marshal_strings groups) encode_groups_failed) _ h in
      let back =
        trips.strings groups val
          (or_err-eq-ok (lib.marshal_strings groups) encode_groups_failed there) in
      subst (λ (x : Extension). (x.id ≡ oid_groups) × (decode_groups lib x ≡ ok groups))
        (ok_injective same) (refl, rw (decode_groups, back) refl)

  decode_key-encode_key :
      (key : List ℕ) (ext : Extension)
      → encode_curve25519_key lib key ≡ ok ext
      → (ext.id ≡ oid_curve25519_key) × (decode_curve25519_key lib ext ≡ ok key)
  unfolding encode_curve25519_key decode_curve25519_key
  decode_key-encode_key key ext h =
      let (_, long, h1) =
        >>=-eq-ok (guard (length key == 32) (expected_32_bytes (length key))) _ h in
      let (val, there, same) = >>=-eq-ok (or_err (lib.marshal_octets key) encode_key_failed) _ h1 in
      let back =
        trips.octets key val (or_err-eq-ok (lib.marshal_octets key) encode_key_failed there) in
      let size = guard-eq-ok (length key == 32) (expected_32_bytes (length key)) long in
      subst
        (λ (x : Extension). (x.id ≡ oid_curve25519_key) × (decode_curve25519_key lib x ≡ ok key))
        (ok_injective same) (refl, rw (decode_curve25519_key, back) (rw size refl))

  addr_from_bytes-addr_bytes :
      (a : Addr) (b : ℕ)
      → InRange a (some b)
      → (addr_from_bytes (addr_bytes a) ≡ ok a)
        × (prefix_from a (pos b) ≡ record { addr = a; bits = some b })
  unfolding addr_from_bytes addr_bytes prefix_from
  addr_from_bytes-addr_bytes no_addr b is = absurd is
  addr_from_bytes-addr_bytes (ip4 a) b (small, fits) =
      let zeros : List ℕ = replicate 4 0 in
      (
        rw (addr_from_bytes, length-put_big_endian 4 zeros 0 a)
            (ap (λ n. ok (ip4 n))
              (get-put_big_endian 4 zeros 0 a (omega arith) ∙ omega (arith, small))),
        ground (arith, fits),
      )
  addr_from_bytes-addr_bytes (ip6 a) b (small, fits) =
      let zeros : List ℕ = replicate 16 0 in
      (
        rw (addr_from_bytes, length-put_big_endian 16 zeros 0 a)
            (ap (λ n. ok (ip6 n))
              (get-put_big_endian 16 zeros 0 a (omega arith) ∙ omega (arith, small))),
        ground (arith, fits),
      )

  decode-encode_parts :
      (a : Addr) (bits : Option ℕ) (ext : Extension)
      → InRange a bits
      → encode_vpn_ip lib (record { addr = a; bits = bits }) ≡ ok ext
      → (ext.id ≡ oid_vpn_ip) × (decode_vpn_ip lib ext ≡ ok (record { addr = a; bits = bits }))
  unfolding encode_vpn_ip decode_vpn_ip bits_of
  decode-encode_parts no_addr none ext is h = absurd is
  decode-encode_parts (ip4 a) none ext is h = absurd is
  decode-encode_parts (ip6 a) none ext is h = absurd is
  decode-encode_parts a (some b) ext is h =
      let wanted : VpnIpValue = record { ip = addr_bytes a; prefix = pos b } in
      let (val, there, same) =
        >>=-eq-ok (or_err (lib.marshal_vpn_ip wanted) encode_vpn_ip_failed) _ h in
      let back =
        trips.vpn_ip wanted val
          (or_err-eq-ok (lib.marshal_vpn_ip wanted) encode_vpn_ip_failed there) in
      let (addr, prefix) = addr_from_bytes-addr_bytes a b is in
      subst
        (λ (x : Extension).
          (x.id ≡ oid_vpn_ip) × (decode_vpn_ip lib x ≡ ok (record { addr = a; bits = some b })))
        (ok_injective same) (refl, rw (decode_vpn_ip, back) (rw addr (ap (λ q. ok q) prefix)))

  decode_vpn_ip-encode_vpn_ip :
      (p : Prefix) (ext : Extension)
      → InRange p.addr p.bits
      → encode_vpn_ip lib p ≡ ok ext
      → (ext.id ≡ oid_vpn_ip) × (decode_vpn_ip lib ext ≡ ok p)
  unfolding encode_vpn_ip decode_vpn_ip
  decode_vpn_ip-encode_vpn_ip p ext is h = decode-encode_parts p.addr p.bits ext is h

  read-vpn_ip :
      (c : Certificate) (ext : Extension) (p : Prefix)
      → (ext.id ≡ oid_vpn_ip) × (decode_vpn_ip lib ext ≡ ok p)
      → read_extension lib c ext ≡ ok (record c { vpn_ip = p })
  unfolding read_extension decode_vpn_ip
  read-vpn_ip c ext p (known, decoded) = rw (read_extension, known) (rw decoded refl)

  read-groups :
      (c : Certificate) (ext : Extension) (gs : List Text)
      → (ext.id ≡ oid_groups) × (decode_groups lib ext ≡ ok gs)
      → read_extension lib c ext ≡ ok (record c { groups = gs })
  unfolding read_extension decode_groups
  read-groups c ext gs (known, decoded) = rw (read_extension, known) (rw decoded refl)

  read-key :
      (c : Certificate) (ext : Extension) (key : List ℕ)
      → (ext.id ≡ oid_curve25519_key) × (decode_curve25519_key lib ext ≡ ok key)
      → read_extension lib c ext ≡ ok (record c { x25519_public_key = key })
  unfolding read_extension decode_curve25519_key
  read-key c ext key (known, decoded) = rw (read_extension, known) (rw decoded refl)

  -- What `Sign` puts into a certificate for a VPN IP, groups and a key, reading the extensions gives
  -- back, when the address and its prefix length lie in their ranges. Without groups those are left.
  pub read_extensions-sign_extensions :
      (p : Prefix) (groups : List Text) (key : List ℕ) (exts : List Extension) (c : Certificate)
      → InRange p.addr p.bits
      → sign_extensions lib p groups key ≡ ok exts
      → read_extensions lib c exts
        ≡ ok (record c {
          vpn_ip = p;
          groups = elim groups [ [] ↦ c.groups | g ∷ gs ↦ g ∷ gs ];
          x25519_public_key = key;
        })
  unfolding sign_extensions read_extensions
  read_extensions-sign_extensions p [] key exts c is h =
      let (v, v_ok, h1) = >>=-eq-ok (encode_vpn_ip lib p) _ h in
      let (k, k_ok, h2) = >>=-eq-ok (encode_curve25519_key lib key) _ h1 in
      let with_ip : Certificate = record c { vpn_ip = p } in
      subst (λ xs. read_extensions lib c xs ≡ ok (record with_ip { x25519_public_key = key }))
        (ok_injective h2)
        (rw (read-vpn_ip c v p (decode_vpn_ip-encode_vpn_ip p v is v_ok))
          (rw (read-key with_ip k key (decode_key-encode_key key k k_ok)) refl))
  read_extensions-sign_extensions p (g ∷ gs) key exts c is h =
      let (v, v_ok, h1) = >>=-eq-ok (encode_vpn_ip lib p) _ h in
      let (k, k_ok, h2) = >>=-eq-ok (encode_curve25519_key lib key) _ h1 in
      let (e, e_ok, h3) = >>=-eq-ok (encode_groups lib (g ∷ gs)) _ h2 in
      let with_ip : Certificate = record c { vpn_ip = p } in
      let with_key : Certificate = record with_ip { x25519_public_key = key } in
      subst (λ xs. read_extensions lib c xs ≡ ok (record with_key { groups = g ∷ gs }))
        (ok_injective h3)
        (rw (read-vpn_ip c v p (decode_vpn_ip-encode_vpn_ip p v is v_ok)) (
          rw (read-key with_ip k key (decode_key-encode_key key k k_ok)) (
            rw (read-groups with_key e (g ∷ gs) (decode_groups-encode_groups (g ∷ gs) e e_ok))
              refl)))

module _ (lib : Library) where
  -- No certificate passes both `Verify` and `VerifyCA`, whatever the pool and the times.
  pub verify-verify_ca :
      (c : Certificate) (pool : List Certificate) (now later : ℕ)
      → verify lib c pool now ≡ ok tt
      → verify_ca lib c later ≢ ok tt
  unfolding verify verify_ca
  verify-verify_ca c pool now later node ca = ground (arith, node, ca)
