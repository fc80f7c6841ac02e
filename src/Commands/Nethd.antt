-- ===== src/Commands/Nethd.antt =====
-- cmd/nethd/main.go: the daemon's main function.
use neth.Base.{
  ℕ, Bool, false, List, [], ◌∷◌, ◌++◌, Option, none, some, ◌=?◌, bytes_key, if◌then◌else◌, ok, err,
}
use neth.Base.Text.{Text, text}
use neth.Cert as Certs
use neth.Cert.Keys.{Curve}
use neth.Config.{Config, LoadError, load}
use neth.LightHouse as Lights
use neth.Tun.{Call}
use neth.Interface.Builders.{StartError}
use neth.Interface.Start.{System, Node, new_interface}

abbrev pub version : Text
version = text "0.1.0"

-- The flags of the command, and slog's levels and handlers.
pub record Flags : Type 0 where
  pub config_path : Text
  pub show_version : Bool

abbrev pub defaults : Flags
defaults = record { config_path = text "/etc/neth/config.yaml"; show_version = false }

pub data Level : Type 0 where
  debug info warn error : Level

pub data Handler : Type 0 where
  json plain : Handler

-- The level and the handler of buildLogger.
unfoldable pub build_logger : Text → Text → Level × Handler
build_logger level format = (
  if level =? text "debug"
      then debug
      else if level =? text "warn"
      then warn
      else if level =? text "error"
      then error
      else info,
  if format =? text "json" then json else plain,
)

-- How `run` ends before the interface runs, or the node that runs until a signal comes, after which
-- the status is 0.
pub data Outcome (Cipher State : Type 0) : Type 0 where
  exits : ℕ → List Text → Outcome Cipher State
  config_failed : LoadError → Outcome Cipher State
  start_failed : StartError → Outcome Cipher State
  runs : Level × Handler → Node Cipher State → Outcome Cipher State

-- The exit status.
unfoldable pub status : {Cipher State : Type 0} → Outcome Cipher State → ℕ
status (exits n lines) = n
status (config_failed e) = 1
status (start_failed e) = 1
status (runs logger node) = 0

module _ (Cipher State : Type 0) (lib : Certs.Library) (lights : Lights.Library)
    (curve : Curve) where
  module _ (sys : System) (unmarshal : Text → Option Config) where
    -- run; `parse` is FlagSet.Parse, and the two times are those of the two verifications.
    unfoldable pub run :
        (Flags → List Text → Option Flags) → ℕ → ℕ → List Text → List Call × Outcome Cipher State
    run parse ca_time node_time args = elim (parse defaults args) [
      | none ↦ ([], exits 2 [])
      | some flags ↦
          if flags.show_version
          then ([], exits 0 ((text "nethd " ++ version) ∷ []))
          else elim (load sys.read_file unmarshal flags.config_path) [
            | err e ↦ ([], config_failed e)
            | ok cfg ↦
                let (calls, started) =
                  new_interface {Cipher = Cipher} {State = State} lib lights curve sys cfg ca_time
                    node_time in
                elim started [
                  | err e ↦ (calls, start_failed e)
                  | ok node ↦ (calls, runs (build_logger cfg.logging.level cfg.logging.format) node)
                ]
          ]
    ]
