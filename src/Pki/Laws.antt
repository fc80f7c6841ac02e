-- ===== src/Pki/Laws.antt =====
-- The steps of LoadPKI, one by one.
use neth.Base.{
  ℕ, ◌≡◌, ◌↔◌, refl, sym, ◌∙◌, ap, subst, =?_refl, List, [], ◌∷◌, Option, some, ◌=?◌, bytes_key,
  same_bytes_iff, ok, guard, or_err, map_err, >>=-eq-ok, or_err-eq-ok, map_err-eq-ok, guard-eq-ok,
  ok_injective,
}
use neth.Base.Text.{Text}
use neth.Config.{PkiConfig}
use neth.Cert.{Library, Certificate, parse, verify, verify_ca}
use neth.Cert.Keys.{Curve, parse_x25519_private_key}
use neth.Pki.{
  Pki, read_ca_failed, read_cert_failed, read_key_failed, parse_ca_failed, parse_cert_failed,
  cert_refused, parse_key_failed, derive_failed, key_mismatch, load_and_parse_ca,
  load_and_parse_node_cert, load_and_verify_key, load_pki,
}

module _ (lib : Library) (read_file : Text → Option (List ℕ)) where
  -- A file that holds a certificate.
  pub record Holds (path : Text) (c : Certificate) : Type 0 where
    pub body : List ℕ
    pub is_read : read_file path ≡ some body
    pub is_parsed : parse lib body ≡ ok c

  -- A file that holds a private key for a public key.
  pub record HoldsKey (curve : Curve) (path : Text) (public key : List ℕ) : Type 0 where
    pub body : List ℕ
    pub is_read : read_file path ≡ some body
    pub is_parsed : parse_x25519_private_key lib body ≡ ok key
    pub is_pair : curve.x25519 key curve.basepoint ≡ some public

  load_and_parse_ca-ok :
      (path : Text) (now : ℕ) {ca : Certificate}
      → load_and_parse_ca lib read_file path now ≡ ok ca
      → Holds path ca × (verify_ca lib ca now ≡ ok tt)
  unfolding load_and_parse_ca
  load_and_parse_ca-ok path now {ca} h =
      let (body, read, h1) = >>=-eq-ok (or_err (read_file path) (read_ca_failed path)) _ h in
      let (c, parsed, h2) = >>=-eq-ok (map_err parse_ca_failed (parse lib body)) _ h1 in
      let (_, passes, same) = >>=-eq-ok (map_err cert_refused (verify_ca lib c now)) _ h2 in
      let there = or_err-eq-ok (read_file path) (read_ca_failed path) read in
      let good = map_err-eq-ok parse_ca_failed (parse lib body) parsed in
      let valid = map_err-eq-ok cert_refused (verify_ca lib c now) passes in
      subst (λ (x : Certificate). Holds path x × (verify_ca lib x now ≡ ok tt)) (ok_injective same)
        (record { body = body; is_read = there; is_parsed = good }, valid)

  load_and_parse_node_cert-ok :
      (path : Text) (ca : Certificate) (now : ℕ) {node : Certificate}
      → load_and_parse_node_cert lib read_file path ca now ≡ ok node
      → Holds path node × (verify lib node (ca ∷ []) now ≡ ok tt)
  unfolding load_and_parse_node_cert
  load_and_parse_node_cert-ok path ca now {node} h =
      let (body, read, h1) = >>=-eq-ok (or_err (read_file path) (read_cert_failed path)) _ h in
      let (c, parsed, h2) = >>=-eq-ok (map_err parse_cert_failed (parse lib body)) _ h1 in
      let (_, passes, same) = >>=-eq-ok (map_err cert_refused (verify lib c (ca ∷ []) now)) _ h2 in
      let there = or_err-eq-ok (read_file path) (read_cert_failed path) read in
      let good = map_err-eq-ok parse_cert_failed (parse lib body) parsed in
      let valid = map_err-eq-ok cert_refused (verify lib c (ca ∷ []) now) passes in
      subst (λ (x : Certificate). Holds path x × (verify lib x (ca ∷ []) now ≡ ok tt))
        (ok_injective same) (record { body = body; is_read = there; is_parsed = good }, valid)

  load_and_verify_key-ok :
      (curve : Curve) (path : Text) (node : Certificate) {key : List ℕ}
      → load_and_verify_key lib read_file curve path node ≡ ok key
      → HoldsKey curve path node.x25519_public_key key
  unfolding load_and_verify_key
  load_and_verify_key-ok curve path node {key} h =
      let (body, read, h1) = >>=-eq-ok (or_err (read_file path) (read_key_failed path)) _ h in
      let (k, parsed, h2) =
        >>=-eq-ok (map_err parse_key_failed (parse_x25519_private_key lib body)) _ h1 in
      let (public, derived, h3) =
        >>=-eq-ok (or_err (curve.x25519 k curve.basepoint) derive_failed) _ h2 in
      let (_, matches, same) =
        >>=-eq-ok (guard (public =? node.x25519_public_key) key_mismatch) _ h3 in
      let there = or_err-eq-ok (read_file path) (read_key_failed path) read in
      let good = map_err-eq-ok parse_key_failed (parse_x25519_private_key lib body) parsed in
      let pair = or_err-eq-ok (curve.x25519 k curve.basepoint) derive_failed derived in
      let equal =
        (same_bytes_iff public node.x25519_public_key).0
          (guard-eq-ok (public =? node.x25519_public_key) key_mismatch matches) in
      subst (λ (x : List ℕ). HoldsKey curve path node.x25519_public_key x) (ok_injective same)
        (record { body = body; is_read = there; is_parsed = good; is_pair = pair ∙ ap some equal })

  -- What the node's material is worth when it is loaded.
  pub record IsLoaded (curve : Curve) (cfg : PkiConfig) (ca_time node_time : ℕ) (pki : Pki)
      : Type 0 where
    pub ca : Certificate
    pub one_ca : pki.ca_certs ≡ ca ∷ []
    pub ca_file : Holds cfg.ca ca
    pub ca_valid : verify_ca lib ca ca_time ≡ ok tt
    pub cert_file : Holds cfg.cert pki.node_cert
    pub cert_valid : verify lib pki.node_cert pki.ca_certs node_time ≡ ok tt
    pub key_file : HoldsKey curve cfg.key pki.node_cert.x25519_public_key pki.curve25519_key

  load_pki-ok :
      (curve : Curve) (cfg : PkiConfig) (ca_time node_time : ℕ) {pki : Pki}
      → load_pki lib read_file curve cfg ca_time node_time ≡ ok pki
      → IsLoaded curve cfg ca_time node_time pki
  unfolding load_pki
  load_pki-ok curve cfg ca_time node_time h =
      let (ca, ca_ok, h1) = >>=-eq-ok (load_and_parse_ca lib read_file cfg.ca ca_time) _ h in
      let (node, node_ok, h2) =
        >>=-eq-ok (load_and_parse_node_cert lib read_file cfg.cert ca node_time) _ h1 in
      let (key, key_ok, same) =
        >>=-eq-ok (load_and_verify_key lib read_file curve cfg.key node) _ h2 in
      let (ca_file, ca_valid) = load_and_parse_ca-ok cfg.ca ca_time ca_ok in
      let (cert_file, cert_valid) = load_and_parse_node_cert-ok cfg.cert ca node_time node_ok in
      let key_file = load_and_verify_key-ok curve cfg.key node key_ok in
      subst (IsLoaded curve cfg ca_time node_time) (ok_injective same) (record {
        ca = ca;
        one_ca = refl;
        ca_file = ca_file;
        ca_valid = ca_valid;
        cert_file = cert_file;
        cert_valid = cert_valid;
        key_file = key_file;
      })

  load_and_parse_ca-of_file :
      (path : Text) (now : ℕ) {ca : Certificate}
      → Holds path ca
      → verify_ca lib ca now ≡ ok tt
      → load_and_parse_ca lib read_file path now ≡ ok ca
  unfolding load_and_parse_ca
  load_and_parse_ca-of_file path now f v =
      rw (load_and_parse_ca, f.is_read) (rw f.is_parsed (rw v refl))

  load_and_parse_node_cert-of_file :
      (path : Text) (ca : Certificate) (now : ℕ) {node : Certificate}
      → Holds path node
      → verify lib node (ca ∷ []) now ≡ ok tt
      → load_and_parse_node_cert lib read_file path ca now ≡ ok node
  unfolding load_and_parse_node_cert
  load_and_parse_node_cert-of_file path ca now f v =
      rw (load_and_parse_node_cert, f.is_read) (rw f.is_parsed (rw v refl))

  load_and_verify_key-of_file :
      (curve : Curve) (path : Text) (node : Certificate) {key : List ℕ}
      → HoldsKey curve path node.x25519_public_key key
      → load_and_verify_key lib read_file curve path node ≡ ok key
  unfolding load_and_verify_key
  load_and_verify_key-of_file curve path node f =
      rw (load_and_verify_key, f.is_read)
        (rw f.is_parsed (rw f.is_pair (rw (=?_refl node.x25519_public_key) refl)))

  pub load_pki-IsLoaded :
      (curve : Curve) (cfg : PkiConfig) (ca_time node_time : ℕ) (pki : Pki)
      → (load_pki lib read_file curve cfg ca_time node_time ≡ ok pki)
        ↔ IsLoaded curve cfg ca_time node_time pki
  unfolding load_pki
  load_pki-IsLoaded curve cfg ca_time node_time pki = (
    load_pki-ok curve cfg ca_time node_time,
    λ l.
        let valid : verify lib pki.node_cert (l.ca ∷ []) node_time ≡ ok tt =
          subst (λ (cas : List Certificate). verify lib pki.node_cert cas node_time ≡ ok tt)
            l.one_ca l.cert_valid in
        rw (load_and_parse_ca-of_file cfg.ca ca_time l.ca_file l.ca_valid) (
          rw (load_and_parse_node_cert-of_file cfg.cert l.ca node_time l.cert_file valid) (
            rw (load_and_verify_key-of_file curve cfg.key pki.node_cert l.key_file) (λ i.
              ok (record {
                ca_certs = sym l.one_ca i;
                node_cert = pki.node_cert;
                curve25519_key = pki.curve25519_key;
              })))),
  )
