-- ===== src/Shell/Control/Resume.antt =====
-- fg of hw1/Commands.cpp while signals arrive.
use operations_systems.Base.{
  ℕ, ◌≡◌, refl, ◌∙◌, Bool, true, false, none, some, List, [], ◌∷◌, ◌++◌, All,
}
use operations_systems.Shell.Jobs.{
  JobEntry, Wait, stopped, remove_finished_jobs, add_job, remove_job_by_id,
}
use operations_systems.Shell.Jobs.Numbers.{
  Distinct, add_job-Distinct, remove_job_by_id-Fresh, Distinct-remove_job_by_id,
}
use operations_systems.Shell.Control.{
  SmallShell, Tick, answer, ctrl_z, ctrl_c, waits_on, sigstop, to_foreground, ctrl_z_handler,
  foreground_wait,
}

-- Ticks that change nothing.
abbrev pub IsQuiet : Tick → Type 0
IsQuiet (answer w) = waits_on w ≡ true
IsQuiet (ctrl_z kill waitpid now) = ⊥
IsQuiet (ctrl_c kill) = Unit {0}

foreground_wait-quiet :
    (q t : List Tick) (s : SmallShell)
    → All IsQuiet q
    → foreground_wait (q ++ t) s ≡ foreground_wait t s
unfolding foreground_wait
foreground_wait-quiet [] t s a = refl
foreground_wait-quiet (answer w ∷ q) t s (h, a) = rw h (foreground_wait-quiet q t s a)
foreground_wait-quiet (ctrl_z k w n ∷ q) t s (h, a) = elim h [ ]
foreground_wait-quiet (ctrl_c k ∷ q) t s (h, a) = foreground_wait-quiet q t s a

-- The list behind a job that fg took up and ctrl-Z stopped.
abbrev pub stopped_again : (ℕ → Wait) → (now : ℕ) → List JobEntry → JobEntry → List JobEntry
stopped_again waitpid now js job =
    (remove_finished_jobs waitpid (remove_job_by_id js job.job_id)).0
    ++ record job { start_time = now; is_stopped = true } ∷ []

-- A job that fg has taken out of a list of distinct numbers, which a ctrl-Z stops after any number of
-- answers that keep fg waiting and of ctrl-C, is back in the list, last, stopped and under its old
-- number, the numbers are still distinct, and nothing runs in the foreground.
pub foreground_wait-Stopped :
    (kill : ℕ → ℕ → Bool) (waitpid : ℕ → Wait) (now : ℕ) (s : SmallShell) (job : JobEntry)
    (quiet rest : List Tick)
    → Distinct s.job_list
    → All IsQuiet quiet
    → kill job.pid sigstop ≡ true
    → (foreground_wait
          (quiet ++ ctrl_z kill waitpid now ∷ answer stopped ∷ rest)
          (to_foreground s job)
        ≡ some (record {
          job_list = stopped_again waitpid now s.job_list job;
          foreground_cmd = none;
          foreground_jobid = none;
        }))
      × Distinct (stopped_again waitpid now s.job_list job)
unfolding foreground_wait ctrl_z_handler add_job
foreground_wait-Stopped kill waitpid now s job quiet rest d q k = (
  foreground_wait-quiet quiet _ (to_foreground s job) q ∙ rw k refl,
  add_job-Distinct waitpid (some job.job_id) job.pid now job.cmd_line true
      (remove_job_by_id s.job_list job.job_id) (Distinct-remove_job_by_id s.job_list job.job_id d)
      (remove_job_by_id-Fresh s.job_list job.job_id d).0,
)

-- A job that ends in the foreground, after any number of answers that keep fg waiting and of ctrl-C,
-- has left the list, and the others are as they were.
pub foreground_wait-Ended :
    (s : SmallShell) (job : JobEntry) (quiet rest : List Tick) (w : Wait)
    → All IsQuiet quiet
    → waits_on w ≡ false
    → foreground_wait (quiet ++ answer w ∷ rest) (to_foreground s job)
      ≡ some (record {
        job_list = remove_job_by_id s.job_list job.job_id;
        foreground_cmd = none;
        foreground_jobid = none;
      })
unfolding foreground_wait
foreground_wait-Ended s job quiet rest w q e =
    foreground_wait-quiet quiet _ (to_foreground s job) q ∙ rw e refl
