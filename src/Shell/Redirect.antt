-- ===== src/Shell/Redirect.antt =====
-- hw1/Commands.cpp: the file descriptors of `RedirectionCommand::execute`. What `dup`, `close` and
-- `open` answer, and what `executeCommand` does to the descriptors, are arguments.
pub mod Restored
mod Tests
use operations_systems.Base.{
  ℕ, Bool, true, false, Option, none, some, List, [], ◌∷◌, ◌==◌, if◌then◌else◌,
}
use operations_systems.Shell.Text.{Text}

-- The file behind each descriptor.
abbrev pub Descriptors : Type 0
Descriptors = ℕ → Option Text

abbrev pub stdout : ℕ
stdout = 1

abbrev pub set_fd : Descriptors → ℕ → Option Text → Descriptors
set_fd fds n f k = if k == n then f else fds k

abbrev pub open_flags : (append : Bool) → (file_path : Text) → Text × Bool
open_flags append file_path = (file_path, append)

-- `prepare`: the descriptors, `new_file_descriptor`, and whether the command stays. `opens` is the
-- descriptor that `open` of the file, to append or from its start, returns.
pub record Prepared : Type 0 where
  pub fds : Descriptors
  pub new_file_descriptor : Option ℕ
  pub cmd : Text

abbrev pub opened : Descriptors → (new : ℕ) → (cmd file_path : Text) → Option ℕ → Prepared
opened fds new cmd file_path none = record { fds = fds; new_file_descriptor = some new; cmd = [] }
opened fds new cmd file_path (some out) = record {
  fds = set_fd fds out (some file_path);
  new_file_descriptor = some new;
  cmd = cmd;
}

abbrev pub duplicated :
    (close_works : Bool) (opens : Text × Bool → Option ℕ)
    → Descriptors
    → (cmd file_path : Text) (append : Bool) → Option ℕ
    → Prepared
duplicated close_works opens fds cmd file_path append none = record {
  fds = fds;
  new_file_descriptor = none;
  cmd = [];
}
duplicated close_works opens fds cmd file_path append (some new) =
    let fds' = set_fd fds new (fds stdout) in
    if close_works
    then opened (set_fd fds' stdout none) new cmd file_path (opens (open_flags append file_path))
    else record { fds = fds'; new_file_descriptor = some new; cmd = [] }

pub prepare :
    (dups : Option ℕ) (close_works : Bool) (opens : Text × Bool → Option ℕ)
    → Descriptors
    → (cmd file_path : Text) (append : Bool) → Prepared
prepare dups close_works opens fds cmd file_path append =
    duplicated close_works opens fds cmd file_path append dups

-- `cleanup`: standard output is what it was, and the duplicate is closed where `close` works.
pub cleanup : (close_works : Bool) → Option ℕ → Descriptors → Descriptors
cleanup close_works none fds = fds
cleanup close_works (some new) fds =
    let fds' = set_fd fds stdout (fds new) in if close_works then set_fd fds' new none else fds'

-- `execute`; where `prepare` fails, the empty line is executed.
pub redirect :
    (dups : Option ℕ) (close_works : Bool) (opens : Text × Bool → Option ℕ) (closes_again : Bool)
    (execute_command : Text → Descriptors → Descriptors)
    → Descriptors
    → (cmd file_path : Text) (append : Bool) → Descriptors
redirect dups close_works opens closes_again execute_command fds cmd file_path append =
    let p = prepare dups close_works opens fds cmd file_path append in
    cleanup closes_again p.new_file_descriptor (execute_command p.cmd p.fds)
