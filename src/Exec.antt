-- ===== src/Exec.antt =====
-- internal/agent/util/exec/exec.go. The commands themselves run in Os; here are the line that is logged
-- for a command, and the exit code in an error.
use application_profiler.Base.{
  ℕ, Bool, true, false, Error, PidErrors, errorf, wrap, exit_error, pid_errors, nil, failed, Option,
  none, some, List, [], ◌∷◌, String, ◌<>◌, if◌then◌else◌,
}
use application_profiler.Base.Text.{trim_space}
use application_profiler.World.{Command}

-- `commander`
pub record Commander : Type 0 where
  pub log_command : Bool

-- `NewCommander`
abbrev pub new_commander : Commander
new_commander = record { log_command = true }

-- `NewSilentCommander`
abbrev pub new_silent_commander : Commander
new_silent_commander = record { log_command = false }

-- The arguments, each with a space behind it.
unfoldable pub spaced : List String → String
spaced [] = ""
spaced (a ∷ args) = a <> (" " <> spaced args)

-- `commander.Command`: the command, and the debug messages.
unfoldable pub command : Commander → String → List String → Command × List String
unfolding spaced trim_space
command c name args = (
  record { name = name; args = args },
  if c.log_command then trim_space (spaced (name ∷ args)) ∷ [] else [],
)

-- `errors.As` with an `*exec.ExitError`: the first one in the order of the wrapped errors.
unfoldable mutual
  pub exit_code_in : Error → Option ℕ
  exit_code_in (errorf s) = none
  exit_code_in (wrap s e) = exit_code_in e
  exit_code_in (exit_error n) = some n
  exit_code_in (pid_errors es) = first_exit_code es

  pub first_exit_code : PidErrors → Option ℕ
  first_exit_code nil = none
  first_exit_code (failed pid e es) = elim (exit_code_in e) [
    | none ↦ first_exit_code es
    | some n ↦ some n
  ]

-- `commander.Execute`, after `CombinedOutput` gave an output and an error.
unfoldable pub execute : String → Option Error → ℕ × String × Option Error
unfolding exit_code_in
execute output none = (0, output, none)
execute output (some e) = (elim (exit_code_in e) [ none ↦ 0 | some n ↦ n ], output, some e)
