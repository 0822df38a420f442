-- ===== src/Shell/Text/Background.antt =====
-- The background sign of hw1/Commands.cpp.
use operations_systems.Base.{
  ℕ, ◌≡◌, refl, ap, inl, inr, true, Bool-cases, none, some, [], ◌∷◌, ◌++◌, length, ◌==◌,
  if◌then◌else◌,
}
use operations_systems.Shell.Text.{
  Text, not_space, set_byte, is_background_command, remove_background_sign,
}
use operations_systems.Shell.Text.Trim.{
  AllSpace, find_last_before, find_last-none, take-length, get_elem?-length,
}

set_byte-length : (l : Text) (c d : ℕ) (s : Text) → set_byte (l ++ c ∷ s) (length l) d ≡ l ++ d ∷ s
set_byte-length [] c d s = refl
set_byte-length (e ∷ l) c d s = ap (λ t. e ∷ t) (set_byte-length l c d s)

-- A line is a background command exactly where the last byte that is not whitespace is `&`.
pub is_background_command-last :
    (l : Text) (c : ℕ) (s : Text)
    → not_space c ≡ true
    → AllSpace s
    → is_background_command (l ++ c ∷ s) ≡ some (c == b'&')
unfolding is_background_command
is_background_command-last l c s h a =
    rw (is_background_command, find_last_before not_space l c s a h, get_elem?-length l c s) refl

-- On a line of whitespace only, such as the empty line, `_isBackgroundCommand` reads `str[npos]` and
-- `_removeBackgroundSign`, whose index has 32 bits, `cmd_line[4294967295]`.
pub background-Blank :
    (s : Text) → AllSpace s → (is_background_command s ≡ none) × (remove_background_sign s ≡ none)
unfolding is_background_command remove_background_sign
background-Blank s a = (
  rw (is_background_command, find_last-none not_space s a) refl,
  rw (remove_background_sign, find_last-none not_space s a) refl,
)

-- `_removeBackgroundSign` puts a space in place of a final `&`, drops all behind it, and leaves any
-- other line as it is; the whitespace before the sign stays.
pub remove_background_sign-last :
    (l : Text) (c : ℕ) (s : Text)
    → not_space c ≡ true
    → AllSpace s
    → remove_background_sign (l ++ c ∷ s) ≡ some (if c == b'&' then l ++ b' ' ∷ [] else l ++ c ∷ s)
unfolding remove_background_sign
remove_background_sign-last l c s h a =
    rw
      (
        remove_background_sign,
        find_last_before not_space l c s a h,
        get_elem?-length l c s,
        set_byte-length l c b' ' s,
        take-length l c s,
        find_last_before not_space l c [] tt h,
        take-length l b' ' s,
      )
      (elim (Bool-cases (c == b'&')) [ inl e ↦ rw e refl | inr e ↦ rw e refl ])
