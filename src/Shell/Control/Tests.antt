-- ===== src/Shell/Control/Tests.antt =====
-- Runs of job control of hw1/Commands.cpp.
use operations_systems.Base.{
  ℕ, ◌≡◌, refl, Bool, true, false, none, some, List, [], ◌∷◌, ◌++◌, arith,
}
use operations_systems.Shell.Jobs.{
  JobEntry, Wait, running, exited, continued, stopped, remove_job_by_id,
}
use operations_systems.Shell.Jobs.Numbers.{Distinct}
use operations_systems.Shell.Control.{
  SmallShell, Tick, answer, ctrl_z, ctrl_c, to_foreground, foreground_wait, kill_command,
  foreground_command,
}
use operations_systems.Shell.Control.Choice.{IsTaken, foreground_command-IsTaken}
use operations_systems.Shell.Control.Signals.{Restrained, kill_command-Restrained}
use operations_systems.Shell.Control.Resume.{
  stopped_again, foreground_wait-Stopped, foreground_wait-Ended,
}

abbrev job : (job_id pid : ℕ) → Bool → JobEntry
job id pid s = record { job_id = id; pid = pid; start_time = 0; cmd_line = []; is_stopped = s }

abbrev shell : SmallShell
shell = record {
  job_list = job 1 100 true ∷ job 2 102 false ∷ [];
  foreground_cmd = none;
  foreground_jobid = none;
}

abbrev kill : ℕ → ℕ → Bool
kill pid signal = true

abbrev waitpid : ℕ → Wait
waitpid pid = running

abbrev quiet : List Tick
quiet = answer running ∷ ctrl_c kill ∷ answer continued ∷ []

-- kill -9 2.
kill_command-Restrained_example :
    Restrained kill
      ((b'k' ∷ []) ∷ (b'-' ∷ b'9' ∷ []) ∷ (b'2' ∷ []) ∷ [])
      shell
      (kill_command kill ((b'k' ∷ []) ∷ (b'-' ∷ b'9' ∷ []) ∷ (b'2' ∷ []) ∷ []) shell)
kill_command-Restrained_example =
    kill_command-Restrained kill ((b'k' ∷ []) ∷ (b'-' ∷ b'9' ∷ []) ∷ (b'2' ∷ []) ∷ []) shell

foreground_wait-Stopped_example :
    (foreground_wait
        (quiet ++ ctrl_z kill waitpid 7 ∷ answer stopped ∷ [])
        (to_foreground shell (job 1 100 true))
      ≡ some (record {
        job_list = stopped_again waitpid 7 shell.job_list (job 1 100 true);
        foreground_cmd = none;
        foreground_jobid = none;
      }))
    × Distinct (stopped_again waitpid 7 shell.job_list (job 1 100 true))
foreground_wait-Stopped_example =
    foreground_wait-Stopped kill waitpid 7 shell (job 1 100 true) quiet []
      ((ground arith, tt), (tt, tt)) (refl, (tt, (refl, tt))) refl

foreground_ends_test :
    foreground_wait (quiet ++ answer exited ∷ []) (to_foreground shell (job 1 100 true))
    ≡ some (record {
      job_list = remove_job_by_id shell.job_list 1;
      foreground_cmd = none;
      foreground_jobid = none;
    })
foreground_ends_test =
    foreground_wait-Ended shell (job 1 100 true) quiet [] exited (refl, (tt, (refl, tt))) refl

-- fg 1, of a stopped job.
foreground_command-IsTaken_example :
    IsTaken kill
      ((b'f' ∷ []) ∷ (b'1' ∷ []) ∷ [])
      shell
      (foreground_command kill ((b'f' ∷ []) ∷ (b'1' ∷ []) ∷ []) shell).0
foreground_command-IsTaken_example =
    foreground_command-IsTaken kill ((b'f' ∷ []) ∷ (b'1' ∷ []) ∷ []) shell
      ((ground arith, tt), (tt, tt))
