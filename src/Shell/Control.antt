-- ===== src/Shell/Control.antt =====
-- hw1/Commands.cpp, hw1/signals.cpp: job control, which is the commands kill, fg and bg and the
-- handlers of ctrl-Z and ctrl-C. What `kill`, `waitpid` and `time` answer is an argument.
pub mod Signals
pub mod Choice
pub mod Resume
mod Tests
use operations_systems.Base.{
  ℕ, zero, suc, ◌+◌, Bool, true, false, not, ◌||◌, Option, none, some, List, [], ◌∷◌, ◌++◌, length,
  get_elem?, ltb, ◌==◌, if◌then◌else◌,
}
use operations_systems.Base.Int.{ℤ, pos, negsuc, pos_part, neg_part}
use operations_systems.Shell.Text.{Text, is_digits, atoi}
use operations_systems.Shell.Jobs.{
  JobEntry, Wait, running, exited, signaled, stopped, continued, wait_failed, add_job,
  get_job_by_id, remove_job_by_id, get_last_job, get_last_stopped_job,
}

-- The command that runs in the foreground.
pub record Foreground : Type 0 where
  pub child_pid : ℕ
  pub cmd_line_const : Text

-- The part of `SmallShell` that job control uses.
pub record SmallShell : Type 0 where
  pub job_list : List JobEntry
  pub foreground_cmd : Option Foreground
  pub foreground_jobid : Option ℕ

pub data Message : Type 0 where
  invalid_arguments : Message
  no_such_job : ℤ → Message
  kill_failed : Message
  list_is_empty : Message
  no_stopped_jobs : Message
  already_running : ℕ → Message

-- What a command prints and the signals that it sends.
pub data Event : Type 0 where
  error : Message → Event
  sent : (pid signal : ℕ) → Event
  job_line : (cmd_line : Text) (pid : ℕ) → Event

abbrev pub sigint : ℕ
sigint = 2

abbrev pub sigcont : ℕ
sigcont = 18

abbrev pub sigstop : ℕ
sigstop = 19

abbrev pub abs : ℤ → ℕ
abs z = pos_part z + neg_part z

-- An argument; there is none behind the last.
abbrev pub text_or_empty : Option Text → Text
text_or_empty none = []
text_or_empty (some t) = t

abbrev pub arg : List Text → ℕ → Text
arg args i = text_or_empty (get_elem? args i)

-- No job has a negative number.
abbrev pub get_job : List JobEntry → ℤ → Option JobEntry
get_job js (pos n) = get_job_by_id js n
get_job js (negsuc n) = none

-- A write to `is_stopped` through the pointer that a lookup returned.
abbrev pub set_stopped : List JobEntry → (job_id : ℕ) → Bool → List JobEntry
set_stopped [] id b = []
set_stopped (j ∷ js) id b =
    if j.job_id == id then record j { is_stopped = b } ∷ js else j ∷ set_stopped js id b

abbrev pub with_stopped : SmallShell → ℕ → Bool → SmallShell
with_stopped s id b = record s { job_list = set_stopped s.job_list id b }

-- KillCommand::execute, from the lookup on.
abbrev pub marked_by : (signal : ℕ) → SmallShell → ℕ → SmallShell
marked_by signal s id =
    if signal == sigcont
    then with_stopped s id false
    else if signal == sigstop
    then with_stopped s id true
    else s

abbrev pub kill_found :
    (ℕ → ℕ → Bool)
    → (signal : ℕ) → (id : ℤ) → SmallShell
    → Option JobEntry
    → SmallShell × List Event
kill_found kill signal id s none = (s, error (no_such_job id) ∷ [])
kill_found kill signal id s (some job) =
    if kill job.pid signal
    then (marked_by signal s job.job_id, sent job.pid signal ∷ [])
    else (s, error kill_failed ∷ [])

abbrev pub is_invalid_kill : List Text → Bool
is_invalid_kill args =
    abs (atoi (arg args 2)) == 0
    || ltb (abs (atoi (arg args 1))) 1
    || ltb 31 (abs (atoi (arg args 1)))
    || ltb 0 (pos_part (atoi (arg args 1)))
    || not (is_digits (arg args 1))

pub kill_command : (kill : ℕ → ℕ → Bool) → (args : List Text) → SmallShell → SmallShell × List Event
kill_command kill args s =
    if not (length args == 3)
    then (s, error invalid_arguments ∷ [])
    else if is_invalid_kill args
    then (s, error invalid_arguments ∷ [])
    else kill_found kill (abs (atoi (arg args 1))) (atoi (arg args 2)) s
        (get_job s.job_list (atoi (arg args 2)))

-- BackgroundCommand::execute, from the choice of the job on.
abbrev pub resume_in_background : (ℕ → ℕ → Bool) → SmallShell → JobEntry → SmallShell × List Event
resume_in_background kill s job =
    if kill job.pid sigcont
    then (
      with_stopped s job.job_id false,
      job_line job.cmd_line job.pid ∷ sent job.pid sigcont ∷ [],
    )
    else (s, job_line job.cmd_line job.pid ∷ error kill_failed ∷ [])

abbrev pub background_last : (ℕ → ℕ → Bool) → SmallShell → Option JobEntry → SmallShell × List Event
background_last kill s none = (s, error no_stopped_jobs ∷ [])
background_last kill s (some job) = resume_in_background kill s job

abbrev pub background_found :
    (ℕ → ℕ → Bool) → (id : ℤ) → SmallShell → Option JobEntry → SmallShell × List Event
background_found kill id s none = (s, error (no_such_job id) ∷ [])
background_found kill id s (some job) =
    if not job.is_stopped
    then (s, error (already_running job.job_id) ∷ [])
    else resume_in_background kill s job

pub background_command :
    (kill : ℕ → ℕ → Bool) → (args : List Text) → SmallShell → SmallShell × List Event
background_command kill args s =
    if length args == 1
    then background_last kill s (get_last_stopped_job s.job_list).0
    else if length args == 2
    then background_found kill (atoi (arg args 1)) s (get_job s.job_list (atoi (arg args 1)))
    else (s, error invalid_arguments ∷ [])

-- ForegroundCommand::execute up to its loop: the job leaves the list and runs in the foreground.
abbrev pub to_foreground : SmallShell → JobEntry → SmallShell
to_foreground s job = record {
  job_list = remove_job_by_id s.job_list job.job_id;
  foreground_cmd = some (record { child_pid = job.pid; cmd_line_const = job.cmd_line });
  foreground_jobid = some job.job_id;
}

abbrev pub foreground_found : (ℕ → ℕ → Bool) → SmallShell → JobEntry → SmallShell × List Event
foreground_found kill s job =
    if job.is_stopped
    then if kill job.pid sigcont
      then (to_foreground s job, sent job.pid sigcont ∷ job_line job.cmd_line job.pid ∷ [])
      else (s, error kill_failed ∷ [])
    else (to_foreground s job, job_line job.cmd_line job.pid ∷ [])

abbrev pub foreground_or :
    (ℕ → ℕ → Bool) → SmallShell → Message → Option JobEntry → SmallShell × List Event
foreground_or kill s m none = (s, error m ∷ [])
foreground_or kill s m (some job) = foreground_found kill s job

pub foreground_command :
    (kill : ℕ → ℕ → Bool) → (args : List Text) → SmallShell → SmallShell × List Event
foreground_command kill args s =
    if length args == 1
    then foreground_or kill s list_is_empty (get_last_job s.job_list).0
    else if length args == 2
    then if not (is_digits (arg args 1))
      then (s, error invalid_arguments ∷ [])
      else foreground_or kill s (no_such_job (atoi (arg args 1)))
          (get_job s.job_list (atoi (arg args 1)))
    else (s, error invalid_arguments ∷ [])

-- ctrlZHandler and ctrlCHandler.
abbrev pub stop_foreground :
    (kill : ℕ → ℕ → Bool) (waitpid : ℕ → Wait) (now : ℕ)
    → SmallShell
    → Option Foreground
    → SmallShell × List Event
stop_foreground kill waitpid now s none = (s, [])
stop_foreground kill waitpid now s (some f) =
    if kill f.child_pid sigstop
    then (
      record s {
        job_list =
            add_job waitpid s.foreground_jobid f.child_pid now f.cmd_line_const true s.job_list;
      },
      sent f.child_pid sigstop ∷ [],
    )
    else (s, error kill_failed ∷ [])

pub ctrl_z_handler :
    (kill : ℕ → ℕ → Bool) (waitpid : ℕ → Wait) (now : ℕ) → SmallShell → SmallShell × List Event
ctrl_z_handler kill waitpid now s = stop_foreground kill waitpid now s s.foreground_cmd

abbrev pub interrupt_foreground : (kill : ℕ → ℕ → Bool) → Option Foreground → List Event
interrupt_foreground kill none = []
interrupt_foreground kill (some f) =
    if kill f.child_pid sigint then sent f.child_pid sigint ∷ [] else error kill_failed ∷ []

pub ctrl_c_handler : (kill : ℕ → ℕ → Bool) → SmallShell → SmallShell × List Event
ctrl_c_handler kill s = (s, interrupt_foreground kill s.foreground_cmd)

-- What happens while fg waits: an answer of `waitpid`, or a signal to the shell.
pub data Tick : Type 0 where
  answer : Wait → Tick
  ctrl_z : (kill : ℕ → ℕ → Bool) (waitpid : ℕ → Wait) (now : ℕ) → Tick
  ctrl_c : (kill : ℕ → ℕ → Bool) → Tick

-- `success == 0 || (success > 0 && WIFEXITED(status) == 0 && WIFCONTINUED(status) == 1)`.
abbrev pub waits_on : Wait → Bool
waits_on running = true
waits_on continued = true
waits_on exited = false
waits_on signaled = false
waits_on stopped = false
waits_on wait_failed = false

abbrev pub leave_foreground : SmallShell → SmallShell
leave_foreground s = record s { foreground_cmd = none; foreground_jobid = none }

-- The loop at the end of ForegroundCommand::execute; `none` while it still waits.
pub foreground_wait : List Tick → SmallShell → Option SmallShell
unfolding ctrl_z_handler
foreground_wait [] s = none
foreground_wait (answer w ∷ ticks) s =
    let rest = foreground_wait ticks s in if waits_on w then rest else some (leave_foreground s)
foreground_wait (ctrl_z kill waitpid now ∷ ticks) s =
    foreground_wait ticks (ctrl_z_handler kill waitpid now s).0
foreground_wait (ctrl_c kill ∷ ticks) s = foreground_wait ticks s
