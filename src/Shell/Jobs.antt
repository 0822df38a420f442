-- ===== src/Shell/Jobs.antt =====
-- hw1/Commands.h, hw1/Commands.cpp: the list of jobs. Job numbers start at 1; -1 in
-- `foreground_jobid` is `none`. What `waitpid` answers for each process is an argument.
pub mod Numbers
pub mod Finished
pub mod Last
pub mod Lookup
mod Tests
use operations_systems.Base.{
  ℕ, zero, suc, ◌+◌, ◌-◌, ◌*◌, Bool, true, false, Option, none, some, List, [], ◌∷◌, ◌++◌, ltb, leb,
  ◌==◌, if◌then◌else◌,
}
use operations_systems.Shell.Text.{Text}

pub record JobEntry : Type 0 where
  pub job_id : ℕ
  pub pid : ℕ
  pub start_time : ℕ
  pub cmd_line : Text
  pub is_stopped : Bool

-- `waitpid(pid, &status, WNOHANG | WUNTRACED | WCONTINUED)`: 0, a status, or -1.
pub data Wait : Type 0 where
  running : Wait
  exited : Wait
  signaled : Wait
  stopped : Wait
  continued : Wait
  wait_failed : Wait

-- `std::max_element` behind a first element: the first of the greatest.
abbrev pub max_from : (JobEntry → JobEntry → Bool) → JobEntry → List JobEntry → JobEntry
max_from less best [] = best
max_from less best (j ∷ js) = max_from less (if less best j then j else best) js

abbrev pub max_element : (JobEntry → JobEntry → Bool) → List JobEntry → Option JobEntry
max_element less [] = none
max_element less (j ∷ js) = some (max_from less j js)

-- `operator<` and `StoppedLessThan`.
abbrev pub less : JobEntry → JobEntry → Bool
less a b = ltb a.job_id b.job_id

abbrev pub stopped_weight : JobEntry → ℕ
stopped_weight j = j.job_id * (if j.is_stopped then 1 else 0)

abbrev pub stopped_less_than : JobEntry → JobEntry → Bool
stopped_less_than a b = ltb (stopped_weight a) (stopped_weight b)

abbrev pub id_or_zero : Option JobEntry → ℕ
id_or_zero none = 0
id_or_zero (some j) = j.job_id

pub get_max_job_id : List JobEntry → ℕ
get_max_job_id js = id_or_zero (max_element less js)

-- The jobs that are left, and whether the loop ended early on an error.
abbrev pub and_keep : JobEntry → List JobEntry × Bool → List JobEntry × Bool
and_keep j r = (j ∷ r.0, r.1)

abbrev pub remove_or_keep :
    Wait → JobEntry → (js : List JobEntry) → List JobEntry × Bool → List JobEntry × Bool
remove_or_keep exited j js rest = rest
remove_or_keep signaled j js rest = rest
remove_or_keep wait_failed j js rest = (j ∷ js, true)
remove_or_keep running j js rest = and_keep j rest
remove_or_keep stopped j js rest = and_keep j rest
remove_or_keep continued j js rest = and_keep j rest

pub remove_finished_jobs : (waitpid : ℕ → Wait) → List JobEntry → List JobEntry × Bool
remove_finished_jobs waitpid [] = ([], false)
remove_finished_jobs waitpid (j ∷ js) =
    remove_or_keep (waitpid j.pid) j js (remove_finished_jobs waitpid js)

-- `foreground_jobid` where there is one, or else the greatest number and one.
abbrev pub next_job_id : (foreground_jobid : Option ℕ) → List JobEntry → ℕ
next_job_id none js = get_max_job_id js + 1
next_job_id (some id) js = id

unfoldable pub add_job :
    (waitpid : ℕ → Wait) (foreground_jobid : Option ℕ) (pid now : ℕ) (cmd_line : Text)
    (is_stopped : Bool)
    → List JobEntry
    → List JobEntry
add_job waitpid foreground_jobid pid now cmd_line is_stopped js =
    let js' = (remove_finished_jobs waitpid js).0 in
    js'
    ++ record {
      job_id = next_job_id foreground_jobid js';
      pid = pid;
      start_time = now;
      cmd_line = cmd_line;
      is_stopped = is_stopped;
    }
      ∷ []

pub get_job_by_id : List JobEntry → ℕ → Option JobEntry
get_job_by_id [] id = none
get_job_by_id (j ∷ js) id = if j.job_id == id then some j else get_job_by_id js id

pub remove_job_by_id : List JobEntry → ℕ → List JobEntry
remove_job_by_id [] id = []
remove_job_by_id (j ∷ js) id = if j.job_id == id then js else j ∷ remove_job_by_id js id

-- The job and `*lastJobId`.
pub get_last_job : List JobEntry → Option JobEntry × ℕ
get_last_job js = (max_element less js, id_or_zero (max_element less js))

abbrev pub if_stopped : Option JobEntry → Option JobEntry
if_stopped none = none
if_stopped (some j) = if j.is_stopped then some j else none

pub get_last_stopped_job : List JobEntry → Option JobEntry × ℕ
get_last_stopped_job js =
    let job = if_stopped (max_element stopped_less_than js) in (job, id_or_zero job)

-- `std::sort` by number.
abbrev pub insert : JobEntry → List JobEntry → List JobEntry
insert j [] = j ∷ []
insert j (k ∷ ks) = if less k j then k ∷ insert j ks else j ∷ k ∷ ks

pub sort : List JobEntry → List JobEntry
sort [] = []
sort (j ∷ js) = insert j (sort js)

-- What `printJobsList` leaves and prints, each job with the seconds since its start.
abbrev pub lines : (now : ℕ) → List JobEntry → List (JobEntry × ℕ)
lines now [] = []
lines now (j ∷ js) = (j, now - j.start_time) ∷ lines now js

pub print_jobs_list :
    (waitpid : ℕ → Wait) (now : ℕ) → List JobEntry → List JobEntry × List (JobEntry × ℕ)
print_jobs_list waitpid now js =
    let js' = sort (remove_finished_jobs waitpid js).0 in (js', lines now js')

-- The processes that `killAllJobs` sends SIGKILL to, in order.
abbrev pub pids : List JobEntry → List ℕ
pids [] = []
pids (j ∷ js) = j.pid ∷ pids js

pub kill_all_jobs : List JobEntry → List JobEntry × List ℕ
kill_all_jobs js = (sort js, pids (sort js))
