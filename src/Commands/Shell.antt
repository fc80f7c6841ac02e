-- ===== src/Commands/Shell.antt =====
-- cmd/neth-cert/main.go: the flags, the errors and the steps of the commands, and what is printed.
-- The flag package, the draws of crypto/rand and the clock are parameters.
use neth.Base.{
  ℕ, zero, suc, ◌+◌, ◌-◌, ◌*◌, ◌/◌, ◌%◌, ◌^◌, Bool, true, false, not, ◌&&◌, ◌||◌, List, [], ◌∷◌,
  ◌++◌, Option, none, some, ltb, length, ◌=?◌, bytes_key, if◌then◌else◌, Result, ok, err, or_err,
  map_err,
}
use neth.Base as Base
use neth.Base.Int.{ℤ, pos}
use neth.Base.Text.{Text, text}
use neth.Net.{Prefix}
use neth.Crypto.{Hashes}
use neth.Files.{FileSystem}
use neth.Cert.{Certificate, CertError, PublicKey, ed25519_key, other_key, fingerprint, is_ca, name}
use neth.Cert.Keys.{KeyError}
use neth.Commands.Groups.{show_groups}

-- The flags of the commands.
pub record CaFlags : Type 0 where
  pub name : Text
  pub duration : ℤ
  pub out_dir : Text

pub record SignFlags : Type 0 where
  pub ca_crt : Text
  pub ca_key : Text
  pub name : Text
  pub ip : Text
  pub groups : Text
  pub duration : ℤ
  pub out_dir : Text

pub record VerifyFlags : Type 0 where
  pub ca_crt : Text
  pub cert : Text

pub record PrintFlags : Type 0 where
  pub cert : Text

-- 8760h
abbrev pub default_duration : ℤ
default_duration = pos (8760 * 3600 * 1000000000)

abbrev pub ca_defaults : CaFlags
ca_defaults = record { name = []; duration = default_duration; out_dir = text "." }

abbrev pub sign_defaults : SignFlags
sign_defaults = record {
  ca_crt = [];
  ca_key = [];
  name = [];
  ip = [];
  groups = [];
  duration = default_duration;
  out_dir = text ".";
}

abbrev pub verify_defaults : VerifyFlags
verify_defaults = record { ca_crt = []; cert = [] }

abbrev pub print_defaults : PrintFlags
print_defaults = record { cert = [] }

-- FlagSet.Parse from the defaults, and the texts of prefixes and times.
pub record Shell : Type 0 where
  pub parse_ca : CaFlags → List Text → Option CaFlags
  pub parse_sign : SignFlags → List Text → Option SignFlags
  pub parse_verify : VerifyFlags → List Text → Option VerifyFlags
  pub parse_print : PrintFlags → List Text → Option PrintFlags
  pub parse_prefix : Text → Option Prefix
  pub prefix_string : Prefix → Text
  pub rfc3339 : ℤ → Text

-- What one run draws from crypto/rand, and when.
pub record Draws : Type 0 where
  pub now : ℕ
  pub seed : Option (List ℕ)
  pub rand_int : ℕ → Option ℕ
  pub key_bytes : Option (List ℕ)

pub data CommandError : Type 0 where
  bad_flags missing_flags ca_key_mismatch key_type_panics : CommandError
  bad_ip not_ca read_failed write_failed : Text → CommandError
  cert_failed : CertError → CommandError
  key_failed : KeyError → CommandError

-- hex.EncodeToString
abbrev pub hex_digit : ℕ → ℕ
hex_digit d = if ltb d 10 then b'0' + d else b'a' + (d - 10)

unfoldable pub hex : List ℕ → Text
hex [] = []
hex (b ∷ bytes) = hex_digit (b / 16) ∷ hex_digit (b % 16) ∷ hex bytes

-- Prefix.IsValid
abbrev pub is_valid : Prefix → Bool
is_valid p = elim (p.bits) [ none ↦ false | some b ↦ true ]

-- The check that the CA's key fits its certificate. The first type assertion has no second result:
-- it panics for a key of another type.
unfoldable pub check_ca_key : PublicKey → List ℕ → Result CommandError (Unit {0})
check_ca_key other_key expected_pub = err key_type_panics
check_ca_key (ed25519_key []) expected_pub = ok tt
check_ca_key (ed25519_key (b ∷ cert_pub)) expected_pub =
    Base.guard ((b ∷ cert_pub) =? expected_pub) ca_key_mismatch

module _ (shell : Shell) (hashes : Hashes) where
  -- printCertSummary
  unfoldable pub cert_summary : Certificate → List Text
  cert_summary c =
      (text "  Name        : " ++ name c)
      ∷ (text "  Is CA       : " ++ (if is_ca c then text "true" else text "false"))
      ∷ ((if is_valid c.vpn_ip
            then (text "  VPN IP      : " ++ shell.prefix_string c.vpn_ip) ∷ []
            else [])
          ++ ((elim (c.groups) [
            | [] ↦ []
            | g ∷ gs ↦ (text "  Groups      : " ++ show_groups (g ∷ gs)) ∷ []
          ])
              ++ ((if ltb 0 (length c.x25519_public_key)
                    then (text "  X25519 key  : " ++ hex c.x25519_public_key) ∷ []
                    else [])
                  ++ ((text "  Not before  : " ++ shell.rfc3339 c.x509.not_before)
                      ∷ (text "  Not after   : " ++ shell.rfc3339 c.x509.not_after)
                      ∷ (text "  Fingerprint : " ++ hex (fingerprint hashes c))
                      ∷ []))))

-- A command's steps on the state of the file system.
abbrev pub Run : Type 0 → Type 0 → Type 0
Run S A = S → S × Result CommandError A

infixl 5 ◌>>=◌ ◌>>◌
abbrev pub ◌>>=◌ : {S A B : Type 0} → Run S A → (A → Run S B) → Run S B
◌>>=◌ m next s = let (s', r) = m s in elim r [ err e ↦ (s', err e) | ok a ↦ next a s' ]

abbrev pub ◌>>◌ : {S B : Type 0} → Run S (Unit {0}) → Run S B → Run S B
first >> then_this = first >>= λ done. then_this

-- A step that leaves the file system alone.
abbrev pub just : {S A : Type 0} → Result CommandError A → Run S A
just r s = (s, r)

module _ (fs : FileSystem) where
  -- os.ReadFile
  unfoldable pub read_file : Text → Run (fs.State) (List ℕ)
  read_file path s = (s, or_err (fs.read s path) (read_failed path))

  -- writeFile
  unfoldable pub write_file : Text → List ℕ → ℕ → Run (fs.State) (Unit {0})
  write_file path body mode s =
      let (s', good) = fs.write s path body mode in (s', Base.guard good (write_failed path))
