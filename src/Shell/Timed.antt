-- ===== src/Shell/Timed.antt =====
-- hw1/Commands.h, hw1/Commands.cpp: timed commands, and external commands. What `waitpid`, `kill`
-- and `time` answer is an argument; a pid of -1 is `none`.
pub mod Expired
mod Tests
use operations_systems.Base.{
  ℕ, zero, suc, ◌+◌, ◌-◌, Bool, true, false, not, ◌&&◌, ◌||◌, Option, none, some, List, [], ◌∷◌,
  ◌++◌, length, ltb, leb, ◌==◌, if◌then◌else◌,
}
use operations_systems.Base.Int.{ℤ, pos, negsuc, ltb_ℤ, pos_part}
use operations_systems.Shell.Text.{Text, is_byte, find_first, drop, atoi}
use operations_systems.Shell.Jobs.{
  JobEntry, Wait, running, exited, signaled, stopped, continued, wait_failed, add_job,
}
use operations_systems.Shell.Control.{SmallShell, Foreground, arg, sigint, ctrl_z_handler}

pub record TimedCmd : Type 0 where
  pub time_to_alarm : ℕ
  pub pid : Option ℕ
  pub start_time : ℕ
  pub cmd_s : Text
  pub time_this : Bool

-- The list, `time_this`, and the pids that were sent SIGKILL.
pub record Timing : Type 0 where
  pub timed_cmds : List TimedCmd
  pub time_this : TimedCmd

pub data Pass : Type 0 where
  pass : (left : List TimedCmd) (killed : List ℕ) (failed : Bool) → Pass

abbrev pub and_left : TimedCmd → Pass → Pass
and_left c (pass left killed failed) = pass (c ∷ left) killed failed

abbrev pub and_killed : ℕ → Pass → Pass
and_killed p (pass left killed failed) = pass left (p ∷ killed) failed

abbrev pub is_expired : (now : ℕ) → TimedCmd → Bool
is_expired now c = leb c.time_to_alarm (now - c.start_time)

-- A command that still runs.
abbrev pub kill_if_expired : (kill : ℕ → Bool) (now p : ℕ) → TimedCmd → List TimedCmd → Pass → Pass
kill_if_expired kill now p c cs rest =
    if is_expired now c
    then if kill p then and_killed p rest else pass (c ∷ cs) [] true
    else and_left c rest

-- One round of the loop, by the answer of `waitpid`.
abbrev pub handle_wait :
    (kill : ℕ → Bool) (now p : ℕ) → Wait → TimedCmd → List TimedCmd → Pass → Pass
handle_wait kill now p exited c cs rest = rest
handle_wait kill now p signaled c cs rest = rest
handle_wait kill now p stopped c cs rest = and_left c rest
handle_wait kill now p continued c cs rest = and_left c rest
handle_wait kill now p wait_failed c cs rest = pass (c ∷ cs) [] true
handle_wait kill now p running c cs rest = kill_if_expired kill now p c cs rest

abbrev pub handle_timed :
    (kill : ℕ → Bool) (waitpid : ℕ → Wait) (now : ℕ)
    → Option ℕ
    → TimedCmd
    → List TimedCmd
    → Pass
    → Pass
handle_timed kill waitpid now none c cs rest = rest
handle_timed kill waitpid now (some p) c cs rest = handle_wait kill now p (waitpid p) c cs rest

pub kill_timed_commands : (kill : ℕ → Bool) (waitpid : ℕ → Wait) (now : ℕ) → List TimedCmd → Pass
kill_timed_commands kill waitpid now [] = pass [] [] false
kill_timed_commands kill waitpid now (c ∷ cs) =
    handle_timed kill waitpid now c.pid c cs (kill_timed_commands kill waitpid now cs)

-- `timeThis`; where the command is timed, its place in the list.
pub time_this : Timing → Timing × Option ℕ
time_this t =
    if t.time_this.time_this
    then (
      record t {
        timed_cmds = t.timed_cmds ++ t.time_this ∷ [];
        time_this = record (t.time_this) { time_this = false };
      },
      some (length t.timed_cmds),
    )
    else (t, none)

-- `reset_timed_cmd`.
abbrev pub forget_pid : List TimedCmd → ℕ → List TimedCmd
forget_pid [] i = []
forget_pid (c ∷ cs) zero = record c { pid = none } ∷ cs
forget_pid (c ∷ cs) (suc i) = c ∷ forget_pid cs i

pub reset_timed_cmd : List TimedCmd → Option ℕ → List TimedCmd
reset_timed_cmd cs none = cs
reset_timed_cmd cs (some i) = forget_pid cs i

-- TimeoutCommand::execute up to the call of `executeCommand`: the seconds for `alarm`, the command
-- that is timed, and the line that is executed. The line starts behind the first byte that equals
-- the last byte of the first argument.
pub data Timeout : Type 0 where
  invalid : Timeout
  starts : (duration : ℕ) (timed : TimedCmd) (line : Text) → Timeout

abbrev pub last_of : Text → ℕ
last_of [] = 0
last_of (c ∷ []) = c
last_of (c ∷ d ∷ s) = last_of (d ∷ s)

abbrev pub behind_index : Text → Option ℕ → Text
behind_index line none = line
behind_index line (some i) = drop (suc i) line

pub timeout_command : (args : List Text) (cmd_line cmd_line_const : Text) → Timeout
timeout_command args cmd_line cmd_line_const =
    if ltb (length args) 3
    then invalid
    else if ltb_ℤ (atoi (arg args 1)) (pos 0)
    then invalid
    else starts (pos_part (atoi (arg args 1)))
        (record {
          time_to_alarm = pos_part (atoi (arg args 1));
          pid = none;
          start_time = 0;
          cmd_s = cmd_line_const;
          time_this = true;
        })
        (behind_index cmd_line (find_first (is_byte (last_of (arg args 1))) cmd_line))

-- ExternalCommand::execute in the parent, before it waits. `time_this` gets the process.
abbrev pub with_process : ℕ → (now : ℕ) → Timing → Timing
with_process pid now t =
    if t.time_this.time_this
    then record t { time_this = record (t.time_this) { pid = some pid; start_time = now } }
    else t

pub external_in_background :
    (pid now : ℕ) (waitpid : ℕ → Wait) (line : Text) → SmallShell × Timing → SmallShell × Timing
external_in_background pid now waitpid line (s, t) = (
  record s { job_list = add_job waitpid s.foreground_jobid pid now line false s.job_list },
  (time_this (with_process pid now t)).0,
)

pub external_in_foreground :
    (pid now : ℕ) (line : Text) → SmallShell × Timing → (SmallShell × Timing) × Option ℕ
external_in_foreground pid now line (s, t) =
    let (t', place) = time_this (with_process pid now t) in
    (
      (record s { foreground_cmd = some (record { child_pid = pid; cmd_line_const = line }) }, t'),
      place,
    )

-- Behind its wait, which ends with an answer other than `running`; `by_sigint` says whether a signal
-- that ended it was SIGINT. The error flag is that of `waitpid`.
abbrev pub is_over : Wait → (by_sigint : Bool) → Bool
is_over exited b = true
is_over signaled b = b
is_over stopped b = false
is_over continued b = false
is_over running b = false
is_over wait_failed b = false

pub external_ends :
    Wait → (by_sigint : Bool) (place : Option ℕ) → SmallShell × Timing → SmallShell × Timing
external_ends w by_sigint place (s, t) = (
  record s { foreground_cmd = none; foreground_jobid = none },
  if is_over w by_sigint then record t { timed_cmds = reset_timed_cmd t.timed_cmds place } else t,
)
