-- ===== src/Commands/NethCert.antt =====
-- cmd/neth-cert/main.go: the commands that make, sign, check and print certificates.
-- A command goes from the state of the file system to the next one, with the lines that it prints or
-- the error.
pub mod Steps
pub mod Issued
pub mod Main
pub mod Laws
use neth.Base.{
  ℕ, zero, suc, ◌+◌, ◌-◌, ◌*◌, ◌/◌, ◌%◌, ◌^◌, Bool, true, false, not, ◌&&◌, ◌||◌, List, [], ◌∷◌,
  ◌++◌, Option, none, some, ltb, length, ◌=?◌, bytes_key, if◌then◌else◌, Result, ok, err, or_err,
  map_err,
}
use neth.Base as Base
use neth.Base.Int.{ℤ, pos}
use neth.Base.Text.{Text, text}
use neth.Net.{Prefix}
use neth.Crypto.{Hashes}
use neth.Files.{FileSystem}
use neth.Cert.{
  Library, Certificate, CertError, PublicKey, ed25519_key, other_key, parse, pem, verify,
  fingerprint, is_ca, name,
}
use neth.Cert.Keys.{
  Curve, Signatures, KeyError, generate_x25519_key_pair, marshal_x25519_private_key,
  marshal_ed25519_private_key, parse_ed25519_private_key,
}
use neth.Cert.Issue.{Issuer, generate_ca, sign}
use neth.Commands.Groups.{parse_groups, show_groups}
use neth.Commands.Shell.{
  CaFlags, SignFlags, VerifyFlags, PrintFlags, ca_defaults, sign_defaults, verify_defaults,
  print_defaults, Shell, Draws, CommandError, bad_flags, missing_flags, bad_ip, not_ca, cert_failed,
  key_failed, check_ca_key, cert_summary, Run, ◌>>=◌, ◌>>◌, just, read_file, write_file,
}

-- The flags that cmdSign asks for.
abbrev pub has_all : SignFlags → Bool
has_all flags = not (flags.ca_crt =? [] || flags.ca_key =? [] || flags.name =? [] || flags.ip =? [])

module _ (fs : FileSystem) where
  -- The two files of a certificate and its key.
  abbrev pub crt_path : Text → Text → Text
  crt_path out_dir base = fs.join out_dir (base ++ text ".crt")

  abbrev pub key_path : Text → Text → Text
  key_path out_dir base = fs.join out_dir (base ++ text ".key")

  module _ (lib : Library) where
    -- `os.ReadFile` and `cert.Parse`
    unfoldable pub read_cert : Text → Run (fs.State) Certificate
    read_cert path = do body ← read_file fs path; just (map_err cert_failed (parse lib body))

    -- The key file with the mode 0o600, after the certificate's with 0o644.
    unfoldable pub write_key : Text → Text → Result KeyError (List ℕ) → Run (fs.State) (Unit {0})
    write_key out_dir base key_pem = do
      body ← just (map_err key_failed key_pem)
      write_file fs (key_path out_dir base) body 384

    unfoldable pub write_pair :
        Text → Text → Certificate → Result KeyError (List ℕ) → Run (fs.State) (Unit {0})
    write_pair out_dir base c key_pem = do
      write_file fs (crt_path out_dir base) (pem lib c) 420
      write_key out_dir base key_pem

    module _ (shell : Shell) (hashes : Hashes) (sigs : Signatures) where
      module _ (issuer : Issuer (sigs.PrivateKey)) (curve : Curve) (draws : Draws) where
        -- cmdCA after its flags are parsed.
        unfoldable pub make_ca : CaFlags → Run (fs.State) (List Text)
        make_ca flags = do
          just (Base.guard (not (flags.name =? [])) missing_flags)
          made ← just (
              map_err cert_failed (
                generate_ca lib sigs issuer draws.seed draws.rand_int draws.now flags.name
                  flags.duration))
          write_pair flags.out_dir flags.name made.0 (marshal_ed25519_private_key lib sigs made.1)
          just (
              ok (
                (text "CA certificate : " ++ crt_path flags.out_dir flags.name)
                ∷ (text "CA private key : " ++ key_path flags.out_dir flags.name)
                ∷ cert_summary shell hashes made.0))

        -- cmdCA
        unfoldable pub cmd_ca : List Text → Run (fs.State) (List Text)
        cmd_ca args = do
          flags ← just (or_err (shell.parse_ca ca_defaults args) bad_flags)
          make_ca flags

        -- cmdSign from the parsed CA certificate and its key on.
        unfoldable pub issue :
            SignFlags → Prefix → Certificate → sigs.PrivateKey → Run (fs.State) (List Text)
        issue flags vpn_ip ca ca_key = do
          just (check_ca_key ca.x509.public_key (sigs.public_of ca_key))
          pair ← just (map_err key_failed (generate_x25519_key_pair curve draws.key_bytes))
          node ← just (
              map_err cert_failed (
                sign lib sigs issuer draws.seed draws.rand_int draws.now ca flags.name vpn_ip
                  (parse_groups flags.groups) pair.1 flags.duration ca_key))
          write_pair flags.out_dir flags.name node (marshal_x25519_private_key lib pair.0)
          just (
              ok (
                (text "Node certificate : " ++ crt_path flags.out_dir flags.name)
                ∷ (text "Node private key : " ++ key_path flags.out_dir flags.name)
                ∷ cert_summary shell hashes node))

        -- cmdSign after its flags are parsed.
        unfoldable pub make_node : SignFlags → Run (fs.State) (List Text)
        make_node flags = do
          just (Base.guard (has_all flags) missing_flags)
          vpn_ip ← just (or_err (shell.parse_prefix flags.ip) (bad_ip flags.ip))
          ca ← read_cert flags.ca_crt
          just (Base.guard (is_ca ca) (not_ca flags.ca_crt))
          key_pem ← read_file fs flags.ca_key
          ca_key ← just (map_err key_failed (parse_ed25519_private_key lib sigs key_pem))
          issue flags vpn_ip ca ca_key

        -- cmdSign
        unfoldable pub cmd_sign : List Text → Run (fs.State) (List Text)
        cmd_sign args = do
          flags ← just (or_err (shell.parse_sign sign_defaults args) bad_flags)
          make_node flags

      -- cmdVerify, at a time.
      unfoldable pub cmd_verify : ℕ → List Text → Run (fs.State) (List Text)
      cmd_verify now args = do
        flags ← just (or_err (shell.parse_verify verify_defaults args) bad_flags)
        just (Base.guard (not (flags.ca_crt =? [] || flags.cert =? [])) missing_flags)
        ca ← read_cert flags.ca_crt
        node ← read_cert flags.cert
        just (map_err cert_failed (verify lib node (ca ∷ []) now))
        just (ok (text "OK: certificate is valid" ∷ []))

      -- cmdPrint
      unfoldable pub cmd_print : List Text → Run (fs.State) (List Text)
      cmd_print args = do
        flags ← just (or_err (shell.parse_print print_defaults args) bad_flags)
        just (Base.guard (not (flags.cert =? [])) missing_flags)
        c ← read_cert flags.cert
        just (ok (cert_summary shell hashes c))
