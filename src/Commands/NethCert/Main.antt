-- ===== src/Commands/NethCert/Main.antt =====
-- cmd/neth-cert/main.go: the choice of the command.
use neth.Base.{ℕ, List, [], ◌∷◌, ◌=?◌, bytes_key, if◌then◌else◌, Result, ok, err}
use neth.Base.Text.{Text, text}
use neth.Crypto.{Hashes}
use neth.Files.{FileSystem}
use neth.Cert.{Library}
use neth.Cert.Keys.{Curve, Signatures}
use neth.Cert.Issue.{Issuer}
use neth.Commands.Shell.{Shell, Draws, CommandError}
use neth.Commands.NethCert.{cmd_ca, cmd_sign, cmd_verify, cmd_print}

-- What main prints on the error output: the usage, with the name of an unknown command, or an error.
pub data Complaint : Type 0 where
  nothing usage : Complaint
  unknown_command : Text → Complaint
  failed : CommandError → Complaint

-- The state of the file system, the exit status, and what is printed on the two outputs.
pub record Exit (S : Type 0) : Type 0 where
  pub state : S
  pub status : ℕ
  pub lines : List Text
  pub complaint : Complaint

-- The end of main.
abbrev pub exit_with : {S : Type 0} → S × Result CommandError (List Text) → Exit S
exit_with (s, ok lines) = record { state = s; status = 0; lines = lines; complaint = nothing }
exit_with (s, err e) = record { state = s; status = 1; lines = []; complaint = failed e }

module _ (fs : FileSystem) (lib : Library) (shell : Shell) (hashes : Hashes)
    (sigs : Signatures) where
  module _ (issuer : Issuer (sigs.PrivateKey)) (curve : Curve) (draws : Draws) where
    -- main, with the arguments behind the program's name.
    unfoldable pub main : List Text → fs.State → Exit (fs.State)
    main [] s = record { state = s; status = 1; lines = []; complaint = usage }
    main (command ∷ args) s =
        if command =? text "ca"
        then exit_with (cmd_ca fs lib shell hashes sigs issuer curve draws args s)
        else if command =? text "sign"
        then exit_with (cmd_sign fs lib shell hashes sigs issuer curve draws args s)
        else if command =? text "verify"
        then exit_with (cmd_verify fs lib shell hashes sigs draws.now args s)
        else if command =? text "print"
        then exit_with (cmd_print fs lib shell hashes sigs args s)
        else record { state = s; status = 1; lines = []; complaint = unknown_command command }
