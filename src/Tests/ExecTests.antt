-- ===== src/Tests/ExecTests.antt =====
-- Commands that are logged, and exit codes.
use application_profiler.Base.{◌≡◌, refl, errorf, wrap, exit_error, some, [], ◌∷◌}
use application_profiler.Exec.{command, new_commander, new_silent_commander, execute}

logged : (command new_commander "gzip" ("-3" ∷ "a.txt" ∷ [])).1 ≡ "gzip -3 a.txt" ∷ []
unfolding command
logged = refl

not_logged : (command new_silent_commander "gzip" ("-3" ∷ [])).1 ≡ []
unfolding command
not_logged = refl

code_of_wrapped :
    execute "" (some (wrap "could not run" (exit_error 2)))
    ≡ (2, "", some (wrap "could not run" (exit_error 2)))
unfolding execute
code_of_wrapped = refl

-- A command that could not be started fails with code 0.
code_without_exit : (execute "" (some (errorf "executable file not found"))).0 ≡ 0
unfolding execute
code_without_exit = refl
