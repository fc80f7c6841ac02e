-- ===== src/Commands/NethCert/Laws.antt =====
-- cmd/neth-cert/main.go and pki.go: a node that `neth-cert sign` made.
use neth.Base.{
  ℕ, ◌≡◌, ◌≢◌, refl, sym, ap, subst, ◌∙◌, false, List, [], ◌∷◌, some, bytes_key, ok, ok_injective,
}
use neth.Base.Text.{Text}
use neth.Net.{Prefix}
use neth.Crypto.{Hashes}
use neth.Files.{FileSystem, KeepsFiles}
use neth.Commands.Shell.{Shell, Draws, SignFlags, sign_defaults}
use neth.Commands.NethCert.{cmd_sign, crt_path, key_path}
use neth.Cert.{Library, RoundTrips, Certificate, parse, verify_ca, ed25519_key}
use neth.Cert.Keys.{Curve, Signatures}
use neth.Cert.Issue.{Issuer}
use neth.Cert.Reading.{parse-parse_certificate}
use neth.Cert.Chain.{IsSigned, IssuesChains, signed_fields, signed_verifies, InDates, MayIssue}
use neth.Pki.{load_pki}
use neth.Pki.Laws.{Holds, HoldsKey, load_pki-IsLoaded}
use neth.Commands.Groups.{parse_groups}
use neth.Cert.Laws.{InRange}
use neth.Commands.NethCert.Steps.{some_injective}
use neth.Commands.NethCert.Issued.{check_ca_key-ok, cmd_sign-IsIssued, issued_files}

module _ (fs : FileSystem) where
  module _ (keeps : KeepsFiles fs) (lib : Library) where
    module _ (shell : Shell) (hashes : Hashes) (sigs : Signatures) where
      module _ (issuer : Issuer (sigs.PrivateKey)) (curve : Curve) (draws : Draws) where
        -- A certificate and a key that `neth-cert sign` wrote are what `LoadPKI` starts a node from: it
        -- accepts them, with the CA certificate that signed them, at every time in the node
        -- certificate's dates at which the CA certificate verifies itself, and the node has the VPN IP
        -- and the groups of the flags. The CA certificate also verifies itself when it is loaded and
        -- its key usage allows issuing, the identity key that was drawn is not the CA's, the three
        -- paths name different files, and the prefix is in range. The file system keeps its files, PEM
        -- and ASN.1 have their round trips, and crypto/x509 does what it documents: a created
        -- certificate keeps the template's extensions and CA flag, and under the conditions above it
        -- verifies against the CA whose key signed it.
        pub load_pki-cmd_sign :
            RoundTrips lib
            → IssuesChains lib sigs issuer
            → (args : List Text) (flags : SignFlags) (p : Prefix) (ca node : Certificate)
              (s s' : fs.State) (lines : List Text) (peers_dir : Text) (seed : List ℕ)
              (ca_time node_time : ℕ)
            → shell.parse_sign sign_defaults args ≡ some flags
            → shell.parse_prefix flags.ip ≡ some p
            → InRange p.addr p.bits
            → Holds lib (fs.read s) flags.ca_crt ca
            → cmd_sign fs lib shell hashes sigs issuer curve draws args s ≡ (s', ok lines)
            → Holds lib (fs.read s') (crt_path fs flags.out_dir flags.name) node
            → fs.same_file
                (key_path fs flags.out_dir flags.name)
                (crt_path fs flags.out_dir flags.name)
              ≡ false
            → fs.same_file (key_path fs flags.out_dir flags.name) flags.ca_crt ≡ false
            → fs.same_file (crt_path fs flags.out_dir flags.name) flags.ca_crt ≡ false
            → verify_ca lib ca ca_time ≡ ok tt
            → draws.seed ≡ some seed
            → ca.x509.public_key ≢ ed25519_key (sigs.public_of (sigs.new_key seed))
            → MayIssue ca.x509
            → verify_ca lib ca node_time ≡ ok tt
            → InDates node.x509 node_time
            → (key : List ℕ) × (load_pki lib
                  (fs.read s')
                  curve
                  (record {
                    ca = flags.ca_crt;
                    cert = crt_path fs flags.out_dir flags.name;
                    key = key_path fs flags.out_dir flags.name;
                    peers_dir = peers_dir;
                  })
                  ca_time
                  node_time
                ≡ ok (record { ca_certs = ca ∷ []; node_cert = node; curve25519_key = key }))
              × (node.vpn_ip ≡ p)
              × (node.groups ≡ parse_groups flags.groups)
        load_pki-cmd_sign trips chains args flags p ca node s s' lines peers_dir seed ca_time
              node_time parsed ip is ca_held ran held apart key_ca crt_ca ca_valid drawn other may
              ca_still_valid dates =
            let (_, done) =
              cmd_sign-IsIssued fs keeps lib shell hashes sigs issuer curve draws args flags p ca s
                parsed ip ca_held ran in
            let (crt_file, key_file) =
              issued_files fs keeps lib shell hashes sigs issuer curve draws flags p ca s s' trips
                apart done in
            let same : done.node ≡ node = ok_injective (
              sym crt_file.is_parsed
              ∙ ap (λ b. parse lib b) (some_injective (sym crt_file.is_read ∙ held.is_read))
              ∙ held.is_parsed) in
            let (_, known) = parse-parse_certificate lib ca_held.body ca_held.is_parsed in
            let own_key =
              check_ca_key-ok fs keeps lib shell hashes sigs issuer curve draws ca.x509.public_key
                (sigs.public_of done.ca_key) (chains.key_size _ ca.x509 known) done.own_key in
            let signed : IsSigned lib sigs issuer draws.seed ca done.ca_key p
                (parse_groups flags.groups) done.public node =
              subst
                (IsSigned lib sigs issuer draws.seed ca done.ca_key p (parse_groups flags.groups)
                  done.public)
                same done.is_signed in
            let (vpn_ip, groups, public) =
              signed_fields lib sigs issuer chains trips draws.seed ca done.ca_key p
                (parse_groups flags.groups) done.public node is signed in
            let valid =
              signed_verifies lib sigs issuer chains draws.seed seed ca done.ca_key p
                (parse_groups flags.groups) done.public node node_time signed drawn other may
                own_key ca_still_valid dates in
            let kept : fs.read s' flags.ca_crt ≡ some ca_held.body =
              done.files flags.ca_crt ∙ rw key_ca (rw crt_ca ca_held.is_read) in
            (
              done.key,
              (load_pki-IsLoaded lib (fs.read s') curve _ ca_time node_time _).1 (record {
                ca = ca;
                one_ca = refl;
                ca_file = record {
                  body = ca_held.body;
                  is_read = kept;
                  is_parsed = ca_held.is_parsed;
                };
                ca_valid = ca_valid;
                cert_file = held;
                cert_valid = valid;
                key_file =
                    subst
                      (λ (k : List ℕ).
                        HoldsKey lib (fs.read s') curve (key_path fs flags.out_dir flags.name) k
                          done.key)
                      (sym public) key_file;
              }),
              vpn_ip,
              groups,
            )
