-- ===== src/Shell/Jobs/Tests.antt =====
-- Runs of the list of jobs of hw1/Commands.cpp.
use mathlib.Core.List.{Perm}
use operations_systems.Base.{
  ℕ, ◌≡◌, ◌≢◌, refl, Bool, true, false, none, some, List, [], ◌∷◌, ◌++◌, arith, ◌==◌, if◌then◌else◌,
}
use operations_systems.Shell.Jobs.{
  JobEntry, Wait, running, exited, remove_finished_jobs, add_job, get_job_by_id, remove_job_by_id,
  get_last_stopped_job, print_jobs_list, lines,
}
use operations_systems.Shell.Jobs.Numbers.{
  Fresh, Distinct, add_job-Distinct, remove_job_by_id-Fresh,
}
use operations_systems.Shell.Jobs.Finished.{
  failed, unfinished, remove_finished_jobs-unfinished, print_jobs_list-IsSorted, IsSorted,
}
use operations_systems.Shell.Jobs.Last.{IsLastStopped, get_last_stopped_job-IsLastStopped}

abbrev job : (job_id pid : ℕ) → Bool → JobEntry
job id pid s = record { job_id = id; pid = pid; start_time = 0; cmd_line = []; is_stopped = s }

abbrev jobs : List JobEntry
jobs = job 1 100 true ∷ job 3 103 false ∷ job 2 102 true ∷ []

jobs-Distinct : Distinct jobs
jobs-Distinct = ((ground arith, (ground arith, tt)), ((ground arith, tt), (tt, tt)))

-- Process 103 has ended.
abbrev waitpid : ℕ → Wait
waitpid p = if p == 103 then exited else running

add_job-Distinct_example : Distinct (add_job waitpid none 107 5 [] false jobs)
add_job-Distinct_example = add_job-Distinct waitpid none 107 5 [] false jobs jobs-Distinct tt

remove_job_by_id-Fresh_test :
    Fresh 3 (remove_job_by_id jobs 3)
    × ((id : ℕ) → id ≢ 3 → get_job_by_id (remove_job_by_id jobs 3) id ≡ get_job_by_id jobs id)
remove_job_by_id-Fresh_test = remove_job_by_id-Fresh jobs 3 jobs-Distinct

remove_finished_jobs-unfinished_example :
    (remove_finished_jobs waitpid jobs ≡ (unfinished waitpid jobs, false))
    × ((j : JobEntry)
        → failed (waitpid j.pid) ≡ true
        → remove_finished_jobs waitpid (jobs ++ j ∷ []) ≡ (unfinished waitpid jobs ++ j ∷ [], true))
remove_finished_jobs-unfinished_example =
    remove_finished_jobs-unfinished waitpid jobs [] (refl, (refl, (refl, tt)))

print_jobs_list-IsSorted_test :
    (let (left, printed) = print_jobs_list waitpid 9 jobs in
      IsSorted left × Perm left (remove_finished_jobs waitpid jobs).0 × (printed ≡ lines 9 left))
print_jobs_list-IsSorted_test = print_jobs_list-IsSorted waitpid 9 jobs

get_last_stopped_job-IsLastStopped_example : IsLastStopped jobs (get_last_stopped_job jobs)
get_last_stopped_job-IsLastStopped_example =
    get_last_stopped_job-IsLastStopped jobs (ground arith, (ground arith, (ground arith, tt)))

last_stopped_test : get_last_stopped_job jobs ≡ (some (job 2 102 true), 2)
unfolding get_last_stopped_job
last_stopped_test = refl
