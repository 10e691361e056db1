-- ===== src/Compiler/Cli.antt =====
-- The command line tool. Which command is chosen and what its flags say is cobra's work: `Command` is
-- its result. Of what is printed only the error is kept.
use nautikus.Prelude.{ℕ, String}
use nautikus.Errors.{Error, wrap, Result, ok, err}
use nautikus.Compiler.Defs.{System, compile_dags}

pub data Command : Type 0 where
  compile : String → String → Command
  version : Command
  -- The error that cobra finds in the command line.
  refused : Error → Command

module _ (S : System) where
  abbrev pub compiled : Result (Unit {0}) × S.Files → Result (Unit {0}) × S.Files
  compiled (err e, f) = (err (wrap "compilation failed" e), f)
  compiled (ok _, f) = (ok tt, f)

  -- `rootCmd.Execute`, which returns the error of the command's function.
  unfoldable pub execute_command : Command → S.Files → Result (Unit {0}) × S.Files
  execute_command (compile config_path output_dir) f =
      compiled (compile_dags S config_path output_dir f)
  execute_command version f = (ok tt, f)
  execute_command (refused e) f = (err e, f)

  -- The exit status of the process.
  abbrev pub exit_status : Result (Unit {0}) × S.Files → ℕ × S.Files
  exit_status (err e, f) = (1, f)
  exit_status (ok _, f) = (0, f)

  unfoldable pub main : Command → S.Files → ℕ × S.Files
  unfolding execute_command
  main command f = exit_status (execute_command command f)
