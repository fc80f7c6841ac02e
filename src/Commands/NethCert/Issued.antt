-- ===== src/Commands/NethCert/Issued.antt =====
-- cmd/neth-cert/main.go: what `sign` has made and written when it succeeds.
use neth.Base.{
  ℕ, ◌≡◌, ◌≢◌, refl, sym, ap, subst, ◌∙◌, arith, true, false, List, [], ◌∷◌, some, ◌=?◌, bytes_key,
  same_bytes_iff, ok, guard, or_err, map_err, or_err-eq-ok, map_err-eq-ok, guard-eq-ok,
  ok_injective, >>=-eq-ok,
}
use neth.Base.Text.{Text}
use neth.Net.{Prefix}
use neth.Crypto.{Hashes}
use neth.Files.{FileSystem, KeepsFiles}
use neth.Commands.Shell.{
  Shell, Draws, SignFlags, sign_defaults, read_file, key_failed, cert_failed, check_ca_key,
  ca_key_mismatch, missing_flags, bad_ip, read_failed, not_ca, bad_flags,
}
use neth.Commands.NethCert.{
  has_all, write_pair, issue, make_node, cmd_sign, read_cert, crt_path, key_path,
}
use neth.Cert.{Library, RoundTrips, Certificate, PublicKey, ed25519_key, other_key, pem}
use neth.Cert.Keys.{
  Curve, Signatures, generate_failed, derive_failed, clamp, generate_x25519_key_pair,
  marshal_x25519_private_key, parse_ed25519_private_key,
}
use neth.Cert.Issue.{Issuer, sign}
use neth.Cert.Reading.{parse-pem_of_parse_der}
use neth.Cert.Chain.{IsSigned, sign-IsSigned}
use neth.Pki.Laws.{Holds, HoldsKey}
use neth.Commands.Groups.{parse_groups}
use neth.Commands.NethCert.Steps.{
  some_injective, step-ok, parse-marshal_x25519, after, write_pair-ok,
}

module _ (fs : FileSystem) where
  module _ (keeps : KeepsFiles fs) (lib : Library) where
    module _ (shell : Shell) (hashes : Hashes) (sigs : Signatures) where
      module _ (issuer : Issuer (sigs.PrivateKey)) (curve : Curve) (draws : Draws) where
        -- What cmdSign has made when it succeeds.
        pub record IsIssued (flags : SignFlags) (p : Prefix) (ca : Certificate) (s s' : fs.State)
            : Type 0 where
          pub ca_key : sigs.PrivateKey
          pub key : List ℕ
          pub public : List ℕ
          pub node : Certificate
          pub key_body : List ℕ
          pub own_key : check_ca_key ca.x509.public_key (sigs.public_of ca_key) ≡ ok tt
          pub is_pair : curve.x25519 key curve.basepoint ≡ some public
          pub is_signed :
              IsSigned lib sigs issuer draws.seed ca ca_key p
                (parse_groups flags.groups)
                public
                node
          pub key_encoded : marshal_x25519_private_key lib key ≡ ok key_body
          pub files :
              (path : Text)
              → fs.read s' path
                ≡ after fs keeps lib s
                    (crt_path fs flags.out_dir flags.name)
                    (key_path fs flags.out_dir flags.name)
                    (pem lib node)
                    key_body
                    path

        generated :
            {key public : List ℕ}
            → generate_x25519_key_pair curve draws.key_bytes ≡ ok (key, public)
            → curve.x25519 key curve.basepoint ≡ some public
        unfolding generate_x25519_key_pair
        generated {key} {public} h =
            let (drawn, _, h1) = >>=-eq-ok (or_err draws.key_bytes generate_failed) _ h in
            let priv = clamp drawn in
            let (made, derived, same) =
              >>=-eq-ok (or_err (curve.x25519 priv curve.basepoint) derive_failed) _ h1 in
            subst (λ (kp : List ℕ × List ℕ). curve.x25519 kp.0 curve.basepoint ≡ some kp.1)
              (ok_injective same)
              (or_err-eq-ok (curve.x25519 priv curve.basepoint) derive_failed derived)

        issue-IsIssued :
            (flags : SignFlags) (p : Prefix) (ca : Certificate) (ca_key : sigs.PrivateKey)
            (s : fs.State) {s' : fs.State} {lines : List Text}
            → issue fs lib shell hashes sigs issuer curve draws flags p ca ca_key s ≡ (s', ok lines)
            → IsIssued flags p ca s s'
        unfolding issue
        issue-IsIssued flags p ca ca_key s {s'} h =
            let checked = check_ca_key ca.x509.public_key (sigs.public_of ca_key) in
            let (u, own, h1) = step-ok s checked _ h in
            let pairing = generate_x25519_key_pair curve draws.key_bytes in
            let ((key, public), made, h2) = step-ok s (map_err key_failed pairing) _ h1 in
            let signing =
              sign lib sigs issuer draws.seed draws.rand_int draws.now ca flags.name p
                (parse_groups flags.groups) public flags.duration ca_key in
            let (node, signed, h3) = step-ok s (map_err cert_failed signing) _ h2 in
            let encoded = marshal_x25519_private_key lib key in
            let writing = write_pair fs lib flags.out_dir flags.name node encoded s in
            let (_, written, last) = step-ok writing.0 writing.1 _ h3 in
            let (body, marshalled, files) =
              write_pair-ok fs keeps lib flags.out_dir flags.name node encoded s written in
            record {
              ca_key = ca_key;
              key = key;
              public = public;
              node = node;
              key_body = body;
              own_key = own;
              is_pair = generated (map_err-eq-ok key_failed pairing made);
              is_signed =
                  sign-IsSigned lib sigs issuer draws.seed draws.rand_int draws.now ca flags.name p
                    (parse_groups flags.groups) public flags.duration ca_key
                    (map_err-eq-ok cert_failed signing signed);
              key_encoded = marshalled;
              files = λ path. ap (λ q. fs.read q.0 path) (sym last) ∙ files path;
            }

        read_cert-of_file :
            (path : Text) (s : fs.State) {c : Certificate}
            → Holds lib (fs.read s) path c
            → read_cert fs lib path s ≡ (s, ok c)
        unfolding read_cert read_file
        read_cert-of_file path s held = ground (arith, held.is_read, held.is_parsed)

        pub check_ca_key-ok :
            (k : PublicKey) (expected : List ℕ)
            → k ≢ ed25519_key []
            → check_ca_key k expected ≡ ok tt
            → k ≡ ed25519_key expected
        unfolding check_ca_key
        check_ca_key-ok other_key expected some_key h = cc
        check_ca_key-ok (ed25519_key []) expected some_key h = absurd (some_key refl)
        check_ca_key-ok (ed25519_key (b ∷ k)) expected some_key h =
            let passes = guard-eq-ok ((b ∷ k) =? expected) ca_key_mismatch h in
            ap ed25519_key ((same_bytes_iff (b ∷ k) expected).0 passes)

        pub cmd_sign-IsIssued :
            (args : List Text) (flags : SignFlags) (p : Prefix) (ca : Certificate) (s : fs.State)
            {s' : fs.State} {lines : List Text}
            → shell.parse_sign sign_defaults args ≡ some flags
            → shell.parse_prefix flags.ip ≡ some p
            → Holds lib (fs.read s) flags.ca_crt ca
            → cmd_sign fs lib shell hashes sigs issuer curve draws args s ≡ (s', ok lines)
            → (ca.x509.is_ca ≡ true) × IsIssued flags p ca s s'
        unfolding cmd_sign make_node read_file
        cmd_sign-IsIssued args flags p ca s {s'} {lines} parsed ip held h =
            let parsing = shell.parse_sign sign_defaults args in
            let (fl, is_fl, h1) = step-ok s (or_err parsing bad_flags) _ h in
            let (_, _, h2) = step-ok s (guard (has_all fl) missing_flags) _ h1 in
            let (q, is_q, h3) = step-ok s (or_err (shell.parse_prefix fl.ip) (bad_ip fl.ip)) _ h2 in
            let reading = read_cert fs lib fl.ca_crt s in
            let (c, is_c, h4) = step-ok reading.0 reading.1 _ h3 in
            let (_, is_ca, h5) = step-ok reading.0 (guard c.x509.is_ca (not_ca fl.ca_crt)) _ h4 in
            let key_file = or_err (fs.read reading.0 fl.ca_key) (read_failed fl.ca_key) in
            let (key_pem, _, h6) = step-ok reading.0 key_file _ h5 in
            let key_parsed = map_err key_failed (parse_ed25519_private_key lib sigs key_pem) in
            let (ca_key, _, h7) = step-ok reading.0 key_parsed _ h6 in
            let issued = issue-IsIssued fl q c ca_key reading.0 h7 in
            let same_flags = some_injective (sym (or_err-eq-ok parsing bad_flags is_fl) ∙ parsed) in
            let same_prefix = some_injective (
              sym (or_err-eq-ok (shell.parse_prefix fl.ip) (bad_ip fl.ip) is_q)
              ∙ ap (λ (f : SignFlags). shell.parse_prefix f.ip) same_flags
              ∙ ip) in
            let same_read : reading ≡ (s, ok ca) =
              ap (λ (f : SignFlags). read_cert fs lib f.ca_crt s) same_flags
              ∙ read_cert-of_file flags.ca_crt s held in
            let same_ca : c ≡ ca = ok_injective (sym is_c ∙ ap (λ r. r.1) same_read) in
            (
              ap (λ (x : Certificate). x.x509.is_ca) (sym same_ca)
                  ∙ guard-eq-ok c.x509.is_ca (not_ca fl.ca_crt) is_ca,
              subst (λ (t : fs.State). IsIssued flags p ca t s') (ap (λ r. r.0) same_read)
                  (subst (λ (x : Certificate). IsIssued flags p x reading.0 s') same_ca
                    (subst (λ (x : Prefix). IsIssued flags x c reading.0 s') same_prefix
                      (subst (λ (f : SignFlags). IsIssued f q c reading.0 s') same_flags issued))),
            )

        -- The node's files read back what was made, when the three paths name different files.
        pub issued_files :
            (flags : SignFlags) (p : Prefix) (ca : Certificate) (s s' : fs.State)
            → RoundTrips lib
            → fs.same_file
                (key_path fs flags.out_dir flags.name)
                (crt_path fs flags.out_dir flags.name)
              ≡ false
            → (done : IsIssued flags p ca s s')
            → Holds lib (fs.read s') (crt_path fs flags.out_dir flags.name) done.node
              × HoldsKey lib
                  (fs.read s')
                  curve
                  (key_path fs flags.out_dir flags.name)
                  done.public
                  done.key
        issued_files flags p ca s s' trips apart done =
            let crt = crt_path fs flags.out_dir flags.name in
            let key = key_path fs flags.out_dir flags.name in
            let crt_there : fs.read s' crt ≡ some (pem lib done.node) =
              done.files crt ∙ rw apart (rw (keeps.same_file_refl crt) refl) in
            let key_there : fs.read s' key ≡ some done.key_body =
              done.files key ∙ rw (keeps.same_file_refl key) refl in
            (
              record {
                body = pem lib done.node;
                is_read = crt_there;
                is_parsed =
                    parse-pem_of_parse_der lib trips done.is_signed.der done.node
                      done.is_signed.is_parsed;
              },
              record {
                body = done.key_body;
                is_read = key_there;
                is_parsed = parse-marshal_x25519 lib trips done.key done.key_encoded;
                is_pair = done.is_pair;
              },
            )
