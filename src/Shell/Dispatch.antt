-- ===== src/Shell/Dispatch.antt =====
-- hw1/Commands.cpp: `SmallShell::CreateCommand` and the constructors of the commands.
pub mod Split
pub mod Named
mod Tests
use operations_systems.Base.{
  ℕ, zero, suc, Bool, true, false, ◌||◌, ◌&&◌, Option, none, some, List, [], ◌∷◌, ◌++◌, get_elem?,
  ◌==◌, if◌then◌else◌,
}
use operations_systems.Shell.Text.{
  Text, take, drop, is_byte, find_first, find_last, contains, trim, parse_command_line,
  is_background_command, remove_background_sign,
}

-- A command's class, with what its own constructor reads.
pub data Kind : Type 0 where
  redirection : (cmd file_path : Text) (append : Bool) → Kind
  pipe : (cmd1 cmd2 : Text) (redir_err : Bool) → Kind
  get_curr_dir : Kind
  change_prompt : Kind
  show_pid : Kind
  quit : Kind
  change_dir : Kind
  jobs : Kind
  kill : Kind
  foreground : Kind
  background : Kind
  tail : Kind
  touch : Kind
  timeout : Kind
  external : (is_in_bg : Bool) → Kind

-- `Command`: the line, without a background sign where that is ignored, and the arguments.
pub record Command : Type 0 where
  pub kind : Kind
  pub cmd_line : Text
  pub args : List Text

abbrev pub eq_text : Text → Text → Bool
eq_text [] [] = true
eq_text [] (d ∷ t) = false
eq_text (c ∷ s) [] = false
eq_text (c ∷ s) (d ∷ t) = c == d && eq_text s t

abbrev pub whole_or_take : Text → Option ℕ → Text
whole_or_take s none = s
whole_or_take s (some i) = take i s

abbrev pub first_word : Text → Text
first_word s = whole_or_take s (find_first (λ c. c == b' ' || c == b'\n') s)

-- Behind the last `&`, and the sign itself, nothing stays.
abbrev pub cut_background : Text → Text
cut_background s = whole_or_take s (find_last (is_byte b'&') s)

-- The byte at an index; behind the last byte there is a zero.
abbrev pub byte_or_zero : Option ℕ → ℕ
byte_or_zero none = 0
byte_or_zero (some c) = c

abbrev pub redirection_at : Text → (arrow_index : ℕ) → Kind
redirection_at line i =
    let append = byte_or_zero (get_elem? line (suc i)) == b'>' in
    redirection (cut_background (take i line))
      (trim (drop (if append then suc (suc i) else suc i) line)) append

abbrev pub pipe_at : Text → (pipe_index : ℕ) → Kind
pipe_at line i =
    let redir_err = byte_or_zero (get_elem? line (suc i)) == b'&' in
    pipe (cut_background (take i line))
      (cut_background (drop (if redir_err then suc (suc i) else suc i) line)) redir_err

-- The words that name a built-in command.
abbrev pub pwd : Text
pwd = b'p' ∷ b'w' ∷ b'd' ∷ []

abbrev pub chprompt : Text
chprompt = b'c' ∷ b'h' ∷ b'p' ∷ b'r' ∷ b'o' ∷ b'm' ∷ b'p' ∷ b't' ∷ []

abbrev pub showpid : Text
showpid = b's' ∷ b'h' ∷ b'o' ∷ b'w' ∷ b'p' ∷ b'i' ∷ b'd' ∷ []

-- The first word and the class that it names, in the order of the tests.
abbrev pub names : List (Text × Kind)
names =
    (pwd, get_curr_dir)
    ∷ (chprompt, change_prompt)
    ∷ (showpid, show_pid)
    ∷ (b'q' ∷ b'u' ∷ b'i' ∷ b't' ∷ [], quit)
    ∷ (b'c' ∷ b'd' ∷ [], change_dir)
    ∷ (b'j' ∷ b'o' ∷ b'b' ∷ b's' ∷ [], jobs)
    ∷ (b'k' ∷ b'i' ∷ b'l' ∷ b'l' ∷ [], kill)
    ∷ (b'f' ∷ b'g' ∷ [], foreground)
    ∷ (b'b' ∷ b'g' ∷ [], background)
    ∷ (b't' ∷ b'a' ∷ b'i' ∷ b'l' ∷ [], tail)
    ∷ (b't' ∷ b'o' ∷ b'u' ∷ b'c' ∷ b'h' ∷ [], touch)
    ∷ (b't' ∷ b'i' ∷ b'm' ∷ b'e' ∷ b'o' ∷ b'u' ∷ b't' ∷ [], timeout)
    ∷ []

abbrev pub named : List (Text × Kind) → Text → Option Kind
named [] w = none
named ((n, k) ∷ ns) w = if eq_text w n then some k else named ns w

-- What stands in the place of the tests of the first word.
abbrev pub external_of : Option Bool → Option Kind
external_of none = none
external_of (some is_in_bg) = some (external is_in_bg)

abbrev pub kind_by_word : Text → Option Kind → Option Kind
kind_by_word line (some k) = some k
kind_by_word line none = external_of (is_background_command line)

abbrev pub at_index : (ℕ → Kind) → Option ℕ → Option Kind
at_index f none = none
at_index f (some i) = some (f i)

-- The class; `none` where a constructor reads `str[npos]`.
pub kind_of : Text → Option Kind
kind_of line =
    if contains (is_byte b'>') (trim line)
    then at_index (redirection_at line) (find_first (is_byte b'>') line)
    else if contains (is_byte b'|') (trim line)
    then at_index (pipe_at line) (find_first (is_byte b'|') line)
    else kind_by_word line (named names (first_word (trim line)))

abbrev pub ignores_ampersand : Kind → Bool
ignores_ampersand (external b) = false
ignores_ampersand timeout = false
ignores_ampersand (redirection c f a) = true
ignores_ampersand (pipe c d r) = true
ignores_ampersand get_curr_dir = true
ignores_ampersand change_prompt = true
ignores_ampersand show_pid = true
ignores_ampersand quit = true
ignores_ampersand change_dir = true
ignores_ampersand jobs = true
ignores_ampersand kill = true
ignores_ampersand foreground = true
ignores_ampersand background = true
ignores_ampersand tail = true
ignores_ampersand touch = true

abbrev pub with_args : Kind → Text → Option (List Text) → Option Command
with_args k line none = none
with_args k line (some args) = some (record { kind = k; cmd_line = line; args = args })

abbrev pub command_of : Kind → Option Text → Option Command
command_of k none = none
command_of k (some line) = with_args k line (parse_command_line line)

abbrev pub construct : Text → Option Kind → Option Command
construct line none = none
construct line (some k) =
    command_of k (if ignores_ampersand k then remove_background_sign line else some line)

-- `none` where a constructor reads or writes out of bounds.
pub create_command : Text → Option Command
create_command line = construct line (kind_of line)
