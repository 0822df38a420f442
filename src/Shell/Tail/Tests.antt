-- ===== src/Shell/Tail/Tests.antt =====
-- Files for tail of hw1/Commands.cpp.
use operations_systems.Base.{ℕ, ◌≡◌, refl, [], ◌∷◌, arith}
use operations_systems.Shell.Text.{Text, drop}
use operations_systems.Shell.Tail.{tail_output, seek_lines}
use operations_systems.Shell.Tail.Counts.{IsLinesFrom, tail_output-IsLinesFrom}

-- "a\nb\nc\n".
abbrev three_lines : Text
three_lines = b'a' ∷ b'\n' ∷ b'b' ∷ b'\n' ∷ b'c' ∷ b'\n' ∷ []

tail_output-IsLinesFrom_example :
    (place : ℕ) × (tail_output three_lines 2 ≡ drop place three_lines)
    × IsLinesFrom three_lines 2 place
tail_output-IsLinesFrom_example = tail_output-IsLinesFrom three_lines 2 (ground arith)

two_lines_test : tail_output three_lines 2 ≡ b'b' ∷ b'\n' ∷ b'c' ∷ b'\n' ∷ []
unfolding tail_output seek_lines
two_lines_test = refl

-- A line end at the start of the file is not counted: two lines are written, not one.
first_byte_test : tail_output (b'\n' ∷ b'a' ∷ []) 1 ≡ b'\n' ∷ b'a' ∷ []
unfolding tail_output seek_lines
first_byte_test = refl
