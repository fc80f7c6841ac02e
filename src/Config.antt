-- ===== src/Config.antt =====
-- config/config.go: the configuration, its defaults and its validation.
pub mod Laws
use neth.Base.{
  ℕ, Bool, true, false, ◌||◌, List, [], ◌∷◌, ◌++◌, Option, none, some, if◌then◌else◌, ◌=?◌,
  bytes_key, Result, ok, err, ◌>>=◌, or_err,
}
use neth.Base.Text.{Text, text}
use neth.Base.Int.{ℤ, pos, negsuc, is_zero, below, above}
use neth.Base.Assoc.{Assoc}
use neth.Firewall.Rules.{FirewallRule}

pub record PkiConfig : Type 0 where
  pub ca : Text
  pub cert : Text
  pub key : Text
  pub peers_dir : Text

pub record ListenConfig : Type 0 where
  pub host : Text
  pub port : ℤ

pub record TunConfig : Type 0 where
  pub dev : Text
  pub mtu : ℤ

pub record LighthouseConfig : Type 0 where
  pub am_lighthouse : Bool
  pub interval : ℤ
  pub hosts : List Text

pub record PunchyConfig : Type 0 where
  pub punch : Bool
  pub respond : Bool

pub record FirewallConfig : Type 0 where
  pub inbound : List FirewallRule
  pub outbound : List FirewallRule

pub record LoggingConfig : Type 0 where
  pub level : Text
  pub format : Text

pub record Config : Type 0 where
  pub pki : PkiConfig
  pub listen : ListenConfig
  pub tun : TunConfig
  pub lighthouse : LighthouseConfig
  pub static_host_map : Assoc Text (List Text)
  pub punchy : PunchyConfig
  pub firewall : FirewallConfig
  pub logging : LoggingConfig

-- `if field == "" { field = value }`, and the same for a number.
abbrev pub or_default : Text → Text → Text
or_default value field = if field =? [] then value else field

abbrev pub or_default_int : ℕ → ℤ → ℤ
or_default_int value field = if is_zero field then pos value else field

unfoldable pub set_defaults : Config → Config
set_defaults c = record c {
  listen = record (c.listen) { host = or_default (text "0.0.0.0") c.listen.host };
  tun = record { dev = or_default (text "neth0") c.tun.dev; mtu = or_default_int 1300 c.tun.mtu };
  lighthouse = record (c.lighthouse) { interval = or_default_int 60 c.lighthouse.interval };
  logging = record {
    level = or_default (text "info") c.logging.level;
    format = or_default (text "text") c.logging.format;
  };
}

pub data ConfigError : Type 0 where
  ca_required cert_required key_required : ConfigError
  port_out_of_range : ℤ → ConfigError

-- `if test { errs = append(errs, …) }`
abbrev pub append_if : Bool → ConfigError → List ConfigError → List ConfigError
append_if test e errs = if test then errs ++ e ∷ [] else errs

-- Validate: the errors that are joined; nil is the empty list.
unfoldable pub validate : Config → List ConfigError
validate c =
    let no_ca = append_if (c.pki.ca =? []) ca_required [] in
    let no_cert = append_if (c.pki.cert =? []) cert_required no_ca in
    let no_key = append_if (c.pki.key =? []) key_required no_cert in
    append_if (below c.listen.port 1 || above c.listen.port 65535) (port_out_of_range c.listen.port)
      no_key

pub data LoadError : Type 0 where
  read_failed parse_failed : Text → LoadError
  invalid : List ConfigError → LoadError

-- `read_file` is os.ReadFile and `unmarshal` is yaml.Unmarshal into a Config.
module _ (read_file : Text → Option Text) (unmarshal : Text → Option Config) where
  -- Load
  unfoldable pub load : Text → Result LoadError Config
  load path = do
    content ← or_err (read_file path) (read_failed path)
    parsed ← or_err (unmarshal content) (parse_failed path)
    let cfg = set_defaults parsed
    elim (validate cfg) [ [] ↦ ok cfg | e ∷ errs ↦ err (invalid (e ∷ errs)) ]
