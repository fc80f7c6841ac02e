-- ===== src/Cert/Chain.antt =====
-- cert/ca.go and cert/verify.go: an issued certificate and its issuer.
use neth.Base.{
  ℕ, ◌≤◌, ◌⊎◌, inl, inr, bit_and, ◌>>=◌, ◌≡◌, ◌≢◌, refl, sym, ap, subst, ◌∙◌, arith, true, false,
  ◌&&◌, List, [], ◌∷◌, ◌++◌, Option, some, All, bytes_key, ok, or_err, >>=-eq-ok, or_err-eq-ok,
  ok_injective,
}
use neth.Base.Int.{ℤ, pos, negsuc}
use neth.Base.Text.{Text}
use neth.Net.{Prefix}
use neth.Cert.{
  Library, RoundTrips, Extension, X509, Certificate, ed25519_key, generate_key_failed,
  create_failed, read_extensions, parse_der, sign_extensions, verify, verify_ca, oid_vpn_ip,
  oid_groups, oid_curve25519_key, encode_vpn_ip, encode_groups, encode_curve25519_key,
}
use neth.Cert.Keys.{Signatures}
use neth.Cert.Issue.{Template, Parent, issued_by, Issuer, add_duration, new_serial, sign}
use neth.Cert.Laws.{InRange, read_extensions-sign_extensions}
use neth.Cert.Reading.{IsForeign, blank, parse_der-ok, read_extensions-foreign, same_list}

abbrev Within : ℤ → ℤ → ℕ → Type 0
Within (pos a) (pos b) now = (a ≤ now) × (now ≤ b)
Within (negsuc a) (pos b) now = now ≤ b
Within a (negsuc b) now = ⊥

-- The time lies in the dates of a certificate.
abbrev pub InDates : X509 → ℕ → Type 0
InDates x now = Within x.not_before x.not_after now

-- The key of a certificate may sign certificates: no usage is named, or keyCertSign is one of them.
abbrev pub MayIssue : X509 → Type 0
MayIssue ca = (ca.key_usage ≡ 0) ⊎ (bit_and ca.key_usage 32 ≡ 32)

-- An extension of neth's, none of which is critical or limits a chain.
abbrev pub IsOwn : Extension → Type 0
IsOwn e = (e.id ≡ oid_vpn_ip) ⊎ ((e.id ≡ oid_curve25519_key) ⊎ (e.id ≡ oid_groups))

-- The documented behaviour of crypto/x509 that neth needs: a certificate that was created and is
-- parsed has the template's extensions behind others, which are not neth's, and is a CA when the
-- template says so; a public key is not empty. A certificate verifies against a CA in its own dates
-- when it was created from a template that is not a CA and has no extensions but neth's, for another
-- key than the CA's, with the CA's own key, and the CA may issue and itself verifies at that time.
pub record IssuesChains (lib : Library) (sigs : Signatures) (issuer : Issuer (sigs.PrivateKey))
    : Type 0 where
  pub key_size :
      (der : List ℕ) (x : X509) → lib.parse_certificate der ≡ some x → x.public_key ≢ ed25519_key []
  pub keeps_is_ca :
      (t : Template) (parent : Parent) (pub_key : List ℕ) (key : sigs.PrivateKey) (der : List ℕ)
      (x : X509)
      → issuer.create_certificate t parent pub_key key ≡ some der
      → lib.parse_certificate der ≡ some x
      → x.is_ca ≡ (t.basic_constraints_valid && t.is_ca)
  pub keeps_extensions :
      (t : Template) (parent : Parent) (pub_key : List ℕ) (key : sigs.PrivateKey) (der : List ℕ)
      (x : X509)
      → issuer.create_certificate t parent pub_key key ≡ some der
      → lib.parse_certificate der ≡ some x
      → (others : List Extension) × All IsForeign others
        × (x.extensions ≡ others ++ t.extra_extensions)
  pub verifies_issued :
      (t : Template) (ca x : X509) (pub_key : List ℕ) (key : sigs.PrivateKey) (der : List ℕ)
      (now : ℕ)
      → issuer.create_certificate t (issued_by ca) pub_key key ≡ some der
      → lib.parse_certificate der ≡ some x
      → t.is_ca ≡ false
      → All IsOwn t.extra_extensions
      → pub_key ≢ sigs.public_of key
      → ca.is_ca ≡ true
      → MayIssue ca
      → ca.public_key ≡ ed25519_key (sigs.public_of key)
      → lib.verifies ca (ca ∷ []) now ≡ true
      → InDates x now
      → lib.verifies x (ca ∷ []) now ≡ true

-- Sign gives a certificate no extensions but neth's.
encode_vpn_ip-id :
    (lib : Library) (p : Prefix) {e : Extension} → encode_vpn_ip lib p ≡ ok e → e.id ≡ oid_vpn_ip
unfolding encode_vpn_ip
encode_vpn_ip-id lib p h = ground arith

encode_groups-id :
    (lib : Library) (groups : List Text) {e : Extension}
    → encode_groups lib groups ≡ ok e
    → e.id ≡ oid_groups
unfolding encode_groups
encode_groups-id lib groups h = ground arith

encode_curve25519_key-id :
    (lib : Library) (key : List ℕ) {e : Extension}
    → encode_curve25519_key lib key ≡ ok e
    → e.id ≡ oid_curve25519_key
unfolding encode_curve25519_key
encode_curve25519_key-id lib key h = ground arith

sign_extensions-IsOwn :
    (lib : Library) (p : Prefix) (groups : List Text) (key : List ℕ) {exts : List Extension}
    → sign_extensions lib p groups key ≡ ok exts
    → All IsOwn exts
unfolding sign_extensions
sign_extensions-IsOwn lib p groups key {exts} h =
    let (ip, ip_ok, h1) = >>=-eq-ok (encode_vpn_ip lib p) _ h in
    let (curve, curve_ok, h2) = >>=-eq-ok (encode_curve25519_key lib key) _ h1 in
    let is_ip = encode_vpn_ip-id lib p ip_ok in
    let is_curve = encode_curve25519_key-id lib key curve_ok in go groups ip curve is_ip is_curve h2
  where
    go :
        (groups : List Text) (ip curve : Extension)
        → ip.id ≡ oid_vpn_ip
        → curve.id ≡ oid_curve25519_key
        → elim groups [
          | [] ↦ ok (ip ∷ curve ∷ [])
          | g ∷ gs ↦ encode_groups lib (g ∷ gs) >>= λ e. ok (ip ∷ curve ∷ e ∷ [])
        ]
          ≡ ok exts
        → All IsOwn exts
    go [] ip curve is_ip is_curve last =
        subst (All IsOwn) (ok_injective last) (inl is_ip, (inr (inl is_curve), tt))
    go (g ∷ gs) ip curve is_ip is_curve last =
        let (e, e_ok, made) = >>=-eq-ok (encode_groups lib (g ∷ gs)) _ last in
        subst (All IsOwn) (ok_injective made)
          (inl is_ip, (inr (inl is_curve), (inr (inr (encode_groups-id lib (g ∷ gs) e_ok)), tt)))

module _ (lib : Library) (sigs : Signatures) (issuer : Issuer (sigs.PrivateKey)) where
  -- What `Sign` did when it succeeded, with what crypto/rand gave for the identity key.
  pub record IsSigned (random : Option (List ℕ)) (ca : Certificate) (key : sigs.PrivateKey)
      (p : Prefix) (groups : List Text) (pub_key : List ℕ) (node : Certificate) : Type 0 where
    pub template : Template
    pub seed : List ℕ
    pub der : List ℕ
    pub drawn : random ≡ some seed
    pub no_ca : template.is_ca ≡ false
    pub extras : sign_extensions lib p groups pub_key ≡ ok template.extra_extensions
    pub is_created :
        issuer.create_certificate template
          (issued_by ca.x509)
          (sigs.public_of (sigs.new_key seed))
          key
        ≡ some der
    pub is_parsed : parse_der lib der ≡ ok node

  pub sign-IsSigned :
      (random : Option (List ℕ)) (rand_int : ℕ → Option ℕ) (now : ℕ) (ca : Certificate)
      (name : Text) (p : Prefix) (groups : List Text) (pub_key : List ℕ) (duration : ℤ)
      (key : sigs.PrivateKey) {node : Certificate}
      → sign lib sigs issuer random rand_int now ca name p groups pub_key duration key ≡ ok node
      → IsSigned random ca key p groups pub_key node
  unfolding sign
  sign-IsSigned random rand_int now ca name p groups pub_key duration key h =
      let (seed, is_seed, h1) = >>=-eq-ok (or_err random generate_key_failed) _ h in
      let (extras, encoded, h2) = >>=-eq-ok (sign_extensions lib p groups pub_key) _ h1 in
      let (serial, _, h3) = >>=-eq-ok (new_serial rand_int) _ h2 in
      let template : Template = record {
        serial_number = serial;
        common_name = name;
        not_before = pos now;
        not_after = add_duration now duration;
        is_ca = false;
        key_usage = 1;
        basic_constraints_valid = false;
        extra_extensions = extras;
      } in
      let identity = sigs.public_of (sigs.new_key seed) in
      let made = issuer.create_certificate template (issued_by ca.x509) identity key in
      let (der, created, parsed) = >>=-eq-ok (or_err made create_failed) _ h3 in
      record {
        template = template;
        seed = seed;
        drawn = or_err-eq-ok random generate_key_failed is_seed;
        der = der;
        no_ca = refl;
        extras = encoded;
        is_created = or_err-eq-ok made create_failed created;
        is_parsed = parsed;
      }

  module _ (chains : IssuesChains lib sigs issuer) where
    -- An issued certificate holds the VPN IP, the groups and the key that it was signed for.
    pub signed_fields :
        RoundTrips lib
        → (random : Option (List ℕ)) (ca : Certificate) (key : sigs.PrivateKey) (p : Prefix)
          (groups : List Text) (pub_key : List ℕ) (node : Certificate)
        → InRange p.addr p.bits
        → IsSigned random ca key p groups pub_key node
        → (node.vpn_ip ≡ p) × (node.groups ≡ groups) × (node.x25519_public_key ≡ pub_key)
    signed_fields trips random ca key p groups pub_key node is signed =
        let (raw, known, read) = parse_der-ok lib signed.der signed.is_parsed in
        let (others, foreign, all) =
          chains.keeps_extensions signed.template (issued_by ca.x509)
            (sigs.public_of (sigs.new_key signed.seed)) key signed.der node.x509 signed.is_created
            known in
        let start = blank lib signed.der node.x509 in
        let exts = signed.template.extra_extensions in
        let same : read_extensions lib start exts ≡ ok node =
          sym (read_extensions-foreign lib start others exts foreign)
          ∙ (subst (λ (es : List Extension). read_extensions lib start es ≡ ok node) all read) in
        let equal = ok_injective (
          sym same
          ∙ read_extensions-sign_extensions lib trips p groups pub_key exts start is
              signed.extras) in
        (
          ap (λ (c : Certificate). c.vpn_ip) equal,
          ap (λ (c : Certificate). c.groups) equal ∙ same_list groups,
          ap (λ (c : Certificate). c.x25519_public_key) equal,
        )

    -- An issued certificate verifies against its CA in its dates, when it was signed with the CA's own
    -- key, the CA may issue and verifies at that time, and the identity key is not the CA's.
    pub signed_verifies :
        (random : Option (List ℕ)) (seed : List ℕ) (ca : Certificate) (key : sigs.PrivateKey)
        (p : Prefix) (groups : List Text) (pub_key : List ℕ) (node : Certificate) (now : ℕ)
        → IsSigned random ca key p groups pub_key node
        → random ≡ some seed
        → ca.x509.public_key ≢ ed25519_key (sigs.public_of (sigs.new_key seed))
        → MayIssue ca.x509
        → ca.x509.public_key ≡ ed25519_key (sigs.public_of key)
        → verify_ca lib ca now ≡ ok tt
        → InDates node.x509 now
        → verify lib node (ca ∷ []) now ≡ ok tt
    unfolding verify verify_ca
    signed_verifies random seed ca key p groups pub_key node now signed drawn apart may own ca_valid
          dates =
        let (raw, known, read) = parse_der-ok lib signed.der signed.is_parsed in
        let public : List ℕ → List ℕ = λ s. sigs.public_of (sigs.new_key s) in
        let drawn_once : some signed.seed ≡ some seed = sym signed.drawn ∙ drawn in
        let same_seed : signed.seed ≡ seed = cc in
        let other_key : public signed.seed ≢ sigs.public_of key =
          λ e. apart (own ∙ ap ed25519_key (sym e ∙ ap public same_seed)) in
        let not_ca : node.x509.is_ca ≡ false =
          chains.keeps_is_ca signed.template (issued_by ca.x509) (public signed.seed) key signed.der
            node.x509 signed.is_created known
          ∙ ground (arith, signed.no_ca) in
        let is_ca : ca.x509.is_ca ≡ true = ground (arith, ca_valid) in
        let ca_good : lib.verifies ca.x509 (ca.x509 ∷ []) now ≡ true = ground (arith, ca_valid) in
        let own_only = sign_extensions-IsOwn lib p groups pub_key signed.extras in
        let good =
          chains.verifies_issued signed.template ca.x509 node.x509 (public signed.seed) key
            signed.der now signed.is_created known signed.no_ca own_only other_key is_ca may own
            ca_good dates in
        ground (arith, not_ca, good)
