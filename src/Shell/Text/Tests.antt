-- ===== src/Shell/Text/Tests.antt =====
-- Runs of the text functions of hw1/Commands.cpp.
use operations_systems.Base.{
  ◌≡◌, refl, true, none, some, List, [], ◌∷◌, ◌++◌, map, length, ltb, if◌then◌else◌,
}
use operations_systems.Base.Int.{negsuc}
use operations_systems.Shell.Text.{
  Text, trim, parse_command_line, command_max_args, is_background_command, remove_background_sign,
  is_digits, atoi, ltrim,
}
use operations_systems.Shell.Text.Trim.{more, trim-IsTight}
use operations_systems.Shell.Text.Words.{unwords, parse_command_line-unwords}
use operations_systems.Shell.Text.Background.{
  is_background_command-last, background-Blank, remove_background_sign-last,
}

abbrev gap : Text
gap = b' ' ∷ b'\t' ∷ []

abbrev sleep : Text
sleep = b's' ∷ b'l' ∷ b'e' ∷ b'e' ∷ b'p' ∷ []

abbrev nine : Text
nine = b'9' ∷ []

-- "  sleep 9 & " with the sign.
abbrev sleep_nine : Text
sleep_nine = sleep ++ b' ' ∷ nine

trim-IsTight_example : trim (gap ++ (sleep_nine ++ gap)) ≡ sleep_nine
trim-IsTight_example =
    trim-IsTight gap sleep_nine gap (refl, (refl, tt))
      (more b's' (b'l' ∷ b'e' ∷ b'e' ∷ b'p' ∷ b' ' ∷ []) b'9' refl refl) (refl, (refl, tt))

abbrev two_words : List (Text × Text)
two_words = (sleep, gap) ∷ (nine, []) ∷ []

parse_command_line-unwords_example : parse_command_line (gap ++ unwords two_words) ≡ (
    if ltb (length (map (λ x. x.0) two_words)) command_max_args
    then some (map (λ x. x.0) two_words)
    else none)
parse_command_line-unwords_example =
    parse_command_line-unwords gap two_words (refl, (refl, tt))
      ((refl, (refl, (refl, (refl, (refl, tt))))), (refl, (refl, tt)), ((refl, tt), tt))

background_sign_test : is_background_command (sleep_nine ++ b'&' ∷ gap) ≡ some true
background_sign_test = is_background_command-last sleep_nine b'&' gap refl (refl, (refl, tt))

background-Blank_test : (is_background_command [] ≡ none) × (remove_background_sign [] ≡ none)
background-Blank_test = background-Blank [] tt

remove_background_sign-last_test :
    remove_background_sign (sleep_nine ++ b'&' ∷ gap) ≡ some (sleep_nine ++ b' ' ∷ [])
remove_background_sign-last_test =
    remove_background_sign-last sleep_nine b'&' gap refl (refl, (refl, tt))

atoi_test : atoi (b' ' ∷ b'-' ∷ b'4' ∷ b'2' ∷ b'x' ∷ []) ≡ negsuc 41
unfolding atoi ltrim
atoi_test = refl

is_digits_test : is_digits (b'5' ∷ b'-' ∷ b'3' ∷ []) ≡ true
unfolding is_digits
is_digits_test = refl
