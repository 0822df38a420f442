-- ===== src/Shell/Directory.antt =====
-- hw1/Commands.cpp: chprompt, pwd, showpid, cd and quit. What `getcwd` and `chdir` answer is an
-- argument: `chdir from to` is the directory that `to` names in `from`, or none.
pub mod Back
mod Tests
use operations_systems.Base.{
  ℕ, zero, suc, Bool, true, false, Option, none, some, List, [], ◌∷◌, ◌++◌, length, ltb, ◌==◌,
  if◌then◌else◌,
}
use operations_systems.Shell.Text.{Text, trim}
use operations_systems.Shell.Dispatch.{eq_text}
use operations_systems.Shell.Control.{arg}
use operations_systems.Shell.Jobs.{JobEntry, kill_all_jobs}

-- ChangePromptCommand::execute: the new prompt.
pub change_prompt_command : (args : List Text) → Text
change_prompt_command args =
    if length args == 1
    then b's' ∷ b'm' ∷ b'a' ∷ b's' ∷ b'h' ∷ b'>' ∷ b' ' ∷ []
    else arg args 1 ++ (b'>' ∷ b' ' ∷ [])

-- GetCurrDirCommand::execute and ShowPidCommand::execute: what they print.
pub get_curr_dir_command : (getcwd : Option Text) → Option Text
get_curr_dir_command path = path

pub show_pid_command : (smash_pid : ℕ) → ℕ
show_pid_command smash_pid = smash_pid

pub data Problem : Type 0 where
  too_many_arguments : Problem
  getcwd_failed : Problem
  old_pwd_not_set : Problem
  chdir_failed : Problem

-- The working directory, `last_path`, and what cd reports.
pub record Place : Type 0 where
  pub cwd : Text
  pub last_path : Option Text
  pub reported : List Problem

abbrev pub report : Place → Problem → Place
report s p = record s { reported = s.reported ++ p ∷ [] }

-- Behind the branches of cd: the old path is kept.
abbrev pub left_from : Text → Place → Place
left_from current_path s = record s { last_path = some current_path }

abbrev pub moved_to : Place → Option Text → Place
moved_to s none = report s chdir_failed
moved_to s (some there) = left_from s.cwd (record s { cwd = there })

abbrev pub change_back : (chdir : Text → Text → Option Text) → Place → Option Text → Place
change_back chdir s none = left_from s.cwd (report s old_pwd_not_set)
change_back chdir s (some last) = moved_to s (chdir s.cwd last)

pub change_dir_command :
    (getcwd_works : Bool) (chdir : Text → Text → Option Text) (args : List Text) → Place → Place
change_dir_command getcwd_works chdir args s =
    if ltb 2 (length args)
    then report s too_many_arguments
    else if length args == 1
    then s
    else if getcwd_works
    then if eq_text (arg args 1) (b'-' ∷ [])
      then change_back chdir s s.last_path
      else moved_to s (chdir s.cwd (arg args 1))
    else report s getcwd_failed

-- QuitCommand::execute: the jobs, and the processes that are sent SIGKILL.
pub quit_command : (args : List Text) → List JobEntry → List JobEntry × List ℕ
quit_command args js =
    if ltb 1 (length args)
    then if eq_text (trim (arg args 1)) (b'k' ∷ b'i' ∷ b'l' ∷ b'l' ∷ [])
      then kill_all_jobs js
      else (js, [])
    else (js, [])
