-- ===== src/Shell/Tail/Counts.antt =====
-- How many lines tail of hw1/Commands.cpp writes.
use operations_systems.Base.{
  ℕ, zero, suc, ◌+◌, ◌-◌, ◌<◌, ◌≡◌, refl, ap, ◌∙◌, inl, inr, true, false, Bool-cases, Option, none,
  some, [], ◌∷◌, arith, length, get_elem?, ◌==◌, if◌then◌else◌,
}
use operations_systems.Shell.Text.{Text, take, drop}
use operations_systems.Shell.Dispatch.{byte_or_zero}
use operations_systems.Shell.Tail.{ends_line, seek_lines, tail_output}

-- The line ends in a text.
abbrev pub newlines : Text → ℕ
newlines [] = 0
newlines (c ∷ s) = (if c == b'\n' then 1 else 0) + newlines s

-- The place is behind a line end, which is neither the first nor the last byte, and `n - 1` line ends
-- are from there up to the last byte, that one left out. Or it is the start, and fewer than `n` line
-- ends are between the first byte and the last, both left out.
abbrev pub IsLinesFrom : Text → (n place : ℕ) → Type 0
IsLinesFrom file n zero = newlines (take (length file - 1) file) < newlines (take 1 file) + n
IsLinesFrom file n (suc q) =
    (0 < q)
    × (suc q < length file)
    × (get_elem? file q ≡ some b'\n')
    × (newlines (take (length file - 1) file) + 1 ≡ newlines (take (suc q) file) + n)

-- A line end at an offset that is not the last byte's.
module _ (file : Text) (i : ℕ) where
  at_end : (o : Option ℕ) → (byte_or_zero o == b'\n') ≡ true → o ≡ some b'\n'
  at_end none e = cc
  at_end (some c) e = ap some (ground arith)

  ends_line-at : ends_line file i ≡ true → get_elem? file i ≡ some b'\n'
  ends_line-at e = at_end (get_elem? file i) (ground arith)

inside : (s : Text) (i c : ℕ) → get_elem? s i ≡ some c → i < length s
inside [] i c e = cc
inside (d ∷ s) zero c e = omega arith
inside (d ∷ s) (suc i) c e = omega (arith, inside s i c e)

newlines_step :
    (s : Text) (i : ℕ)
    → newlines (take (suc i) s)
      ≡ newlines (take i s) + (if byte_or_zero (get_elem? s i) == b'\n' then 1 else 0)
newlines_step [] zero = refl
newlines_step [] (suc i) = refl
newlines_step (c ∷ s) zero = omega arith
newlines_step (c ∷ s) (suc i) = omega (arith, newlines_step s i)

-- `IsLinesFrom` where the loop stands at the offset `k`.
abbrev LinesUpTo : Text → (n k place : ℕ) → Type 0
LinesUpTo file n k zero = newlines (take (suc k) file) < newlines (take 1 file) + n
LinesUpTo file n k (suc q) =
    (0 < q)
    × (suc q < length file)
    × (get_elem? file q ≡ some b'\n')
    × (newlines (take (suc k) file) + 1 ≡ newlines (take (suc q) file) + n)

module _ (file : Text) (n i : ℕ) where
  one_more :
      ends_line file (suc i) ≡ true
      → newlines (take (suc (suc i)) file) ≡ newlines (take (suc i) file) + 1
  one_more e =
      newlines_step file (suc i)
      ∙ ap (λ b. newlines (take (suc i) file) + (if b then 1 else 0)) yes_newline
    where
      yes_newline : (byte_or_zero (get_elem? file (suc i)) == b'\n') ≡ true
      yes_newline = ground arith

  no_more :
      ends_line file (suc i) ≡ false
      → suc (suc i) < length file
      → newlines (take (suc (suc i)) file) ≡ newlines (take (suc i) file) + 0
  no_more e lt =
      newlines_step file (suc i)
      ∙ ap (λ b. newlines (take (suc i) file) + (if b then 1 else 0)) no_newline
    where
      no_newline : (byte_or_zero (get_elem? file (suc i)) == b'\n') ≡ false
      no_newline = ground arith

  counted :
      ends_line file (suc i) ≡ true
      → 1 < n
      → (place : ℕ) → LinesUpTo file (n - 1) i place
      → LinesUpTo file n (suc i) place
  counted e h zero l = omega (arith, one_more e, l)
  counted e h (suc q) (pos_q, lt, at, l) = (pos_q, lt, at, omega (arith, one_more e, l))

  passed :
      ends_line file (suc i) ≡ false
      → suc (suc i) < length file
      → (place : ℕ) → LinesUpTo file n i place
      → LinesUpTo file n (suc i) place
  passed e h zero l = omega (arith, no_more e h, l)
  passed e h (suc q) (pos_q, lt, at, l) = (pos_q, lt, at, omega (arith, no_more e h, l))

seek_lines-LinesUpTo :
    (file : Text) (n k : ℕ) → 0 < n → suc k < length file → LinesUpTo file n k (seek_lines file n k)
unfolding seek_lines
seek_lines-LinesUpTo file n zero p lt = omega (arith, p)
seek_lines-LinesUpTo file n (suc i) p lt = elim (Bool-cases (ends_line file (suc i))) [
  | inl e ↦ rw e (elim (Bool-cases (n - 1 == 0)) [
    | inl last ↦ rw last (omega arith, lt, ends_line-at file (suc i) e, omega (arith, is_one last))
    | inr more ↦ rw more (
        counted file n i e (two more) (seek_lines file (n - 1) i)
          (seek_lines-LinesUpTo file (n - 1) i (omega (arith, two more)) (omega (arith, lt))))
  ])
  | inr e ↦ rw e (
      passed file n i e lt (seek_lines file n i)
        (seek_lines-LinesUpTo file n i p (omega (arith, lt))))
]
  where
    is_one : (n - 1 == 0) ≡ true → n ≡ 1
    is_one e = ground arith

    two : (n - 1 == 0) ≡ false → 1 < n
    two e = ground arith

-- The last byte is passed over.
seek_lines-last :
    (file : Text) (n m : ℕ)
    → length file ≡ suc (suc m)
    → seek_lines file n (length file - 1) ≡ seek_lines file n m
unfolding seek_lines
seek_lines-last file n m e = ap (seek_lines file n) one_less ∙ rw last refl
  where
    one_less : length file - 1 ≡ suc m
    one_less = omega (arith, e)

    last : ends_line file (suc m) ≡ false
    last = ground arith

at_last :
    (file : Text) (m : ℕ)
    → length file ≡ suc (suc m)
    → newlines (take (length file - 1) file) ≡ newlines (take (suc m) file)
at_last file m e = ap (λ k. newlines (take k file)) one_less
  where
    one_less : length file - 1 ≡ suc m
    one_less = omega (arith, e)

from_up_to :
    (file : Text) (n m place : ℕ)
    → length file ≡ suc (suc m)
    → LinesUpTo file n m place
    → IsLinesFrom file n place
from_up_to file n m zero e l = omega (arith, at_last file m e, l)
from_up_to file n m (suc q) e (pos_q, lt, at, l) =
    (pos_q, lt, at, omega (arith, at_last file m e, l))

-- tail of `n` lines, at least one, writes the file from a place behind a line end that is neither its
-- first nor its last byte, with exactly `n - 1` line ends from there on, the last byte left out; or
-- the whole file, where fewer than `n` line ends are between its first byte and its last.
pub tail_output-IsLinesFrom :
    (file : Text) (n : ℕ)
    → 0 < n
    → (place : ℕ) × (tail_output file n ≡ drop place file) × IsLinesFrom file n place
unfolding tail_output
tail_output-IsLinesFrom [] n p = (0, refl, omega (arith, p))
tail_output-IsLinesFrom (c ∷ []) n p = (0, refl, omega (arith, p))
tail_output-IsLinesFrom (c ∷ d ∷ s) n p = (
  seek_lines (c ∷ d ∷ s) n (length s),
  ap (λ place. drop place (c ∷ d ∷ s)) (seek_lines-last (c ∷ d ∷ s) n (length s) refl),
  from_up_to (c ∷ d ∷ s) n (length s) (seek_lines (c ∷ d ∷ s) n (length s)) refl
      (seek_lines-LinesUpTo (c ∷ d ∷ s) n (length s) p (omega arith)),
)
