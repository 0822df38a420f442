-- ===== src/Shell/Timed/Tests.antt =====
-- An alarm in hw1/Commands.cpp.
use operations_systems.Base.{
  ℕ, ◌≡◌, refl, true, false, Option, none, some, List, [], ◌∷◌, ◌==◌, if◌then◌else◌,
}
use operations_systems.Shell.Jobs.{Wait, running, exited}
use operations_systems.Shell.Timed.{TimedCmd, pass, kill_timed_commands}
use operations_systems.Shell.Timed.Expired.{Settles, IsThorough, kill_timed_commands-Settles}

abbrev timed : ℕ → Option ℕ → ℕ → TimedCmd
timed n p s = record { time_to_alarm = n; pid = p; start_time = s; cmd_s = []; time_this = false }

abbrev cmds : List TimedCmd
cmds = timed 5 (some 100) 10 ∷ timed 9 (some 101) 10 ∷ timed 1 none 10 ∷ timed 3 (some 103) 10 ∷ []

abbrev waitpid : ℕ → Wait
waitpid p = if p == 103 then exited else running

kill_timed_commands-Settles_example :
    Settles (λ p. true) waitpid 15 cmds (kill_timed_commands (λ p. true) waitpid 15 cmds)
    × IsThorough (λ p. true) waitpid 15 (kill_timed_commands (λ p. true) waitpid 15 cmds)
kill_timed_commands-Settles_example = kill_timed_commands-Settles (λ p. true) waitpid 15 cmds

alarm_test :
    kill_timed_commands (λ p. true) waitpid 15 cmds
    ≡ pass (timed 9 (some 101) 10 ∷ []) (100 ∷ []) false
unfolding kill_timed_commands
alarm_test = refl
