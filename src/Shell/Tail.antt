-- ===== src/Shell/Tail.antt =====
-- hw1/Commands.cpp: `TailCommand::execute` on a file's bytes, where every call of the kernel works and
-- a read of a byte before the end returns it.
pub mod Counts
mod Tests
use operations_systems.Base.{
  ℕ, zero, suc, ◌-◌, Bool, true, false, not, ◌&&◌, ◌||◌, Option, none, some, List, [], ◌∷◌, length,
  get_elem?, leb, ◌==◌, if◌then◌else◌,
}
use operations_systems.Shell.Text.{Text, is_digit, is_byte, contains, trim, atoi, drop}
use operations_systems.Shell.Dispatch.{byte_or_zero}
use operations_systems.Shell.Control.{abs, arg}

pub data TailArguments : Type 0 where
  invalid : TailArguments
  nothing : TailArguments
  lines_of : (n : ℕ) (file_path : Text) → TailArguments

-- `tmp.rfind("--", 0) == 0`.
abbrev pub starts_with_dashes : Text → Bool
starts_with_dashes [] = false
starts_with_dashes (c ∷ []) = false
starts_with_dashes (c ∷ d ∷ s) = c == b'-' && d == b'-'

abbrev pub is_count : Text → Bool
is_count s =
    not (starts_with_dashes s || not (contains (is_byte b'-') s) || not (contains is_digit s))

pub tail_arguments : (args : List Text) → TailArguments
tail_arguments args =
    if length args == 2
    then lines_of 10 (trim (arg args 1))
    else if length args == 3
    then if not (is_count (arg args 1))
      then invalid
      else if abs (atoi (arg args 1)) == 0
      then nothing
      else lines_of (abs (atoi (arg args 1))) (trim (arg args 2))
    else invalid

-- A line end, other than at the last byte.
abbrev pub ends_line : (file : Text) → ℕ → Bool
ends_line file i = byte_or_zero (get_elem? file i) == b'\n' && not (i == length file - 1)

-- The loop, from `seeker` down: where the file is read from.
pub seek_lines : (file : Text) → (n seeker : ℕ) → ℕ
seek_lines file n zero = zero
seek_lines file n (suc i) =
    if ends_line file (suc i)
    then if n - 1 == 0 then suc (suc i) else seek_lines file (n - 1) i
    else seek_lines file n i

-- What is written: the file from that place on.
pub tail_output : (file : Text) → (n : ℕ) → Text
unfolding seek_lines
tail_output file n = drop (seek_lines file n (length file - 1)) file
