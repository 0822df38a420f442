-- ===== src/Shell/Directory/Tests.antt =====
-- A cd and back in hw1/Commands.cpp.
use operations_systems.Base.{◌≡◌, refl, true, Option, none, some, [], ◌∷◌, if◌then◌else◌}
use operations_systems.Shell.Text.{Text}
use operations_systems.Shell.Dispatch.{eq_text}
use operations_systems.Shell.Directory.{
  Place, report, old_pwd_not_set, change_dir_command, change_prompt_command,
}
use operations_systems.Shell.Directory.Back.{change_dir_command-back, cd, dash}

abbrev a : Text
a = b'/' ∷ b'a' ∷ []

abbrev b : Text
b = b'/' ∷ b'b' ∷ []

abbrev place : Place
place = record { cwd = a; last_path = none; reported = [] }

-- The directory /b is `b` in /a.
abbrev chdir : Text → Text → Option Text
chdir from to = if eq_text to (b'b' ∷ []) then some b else some to

change_dir_command-back_example :
    (let went = change_dir_command true chdir (cd ∷ (b'b' ∷ []) ∷ []) place in
      let returned = change_dir_command true chdir (cd ∷ dash ∷ []) went in
      (went ≡ record place { cwd = b; last_path = some a })
      × (returned ≡ record place { last_path = some b })
      × (change_dir_command true chdir (cd ∷ dash ∷ []) returned ≡ went))
    × (place.last_path ≡ none
        → change_dir_command true chdir (cd ∷ dash ∷ []) place
          ≡ record (report place old_pwd_not_set) { last_path = some a })
change_dir_command-back_example =
    change_dir_command-back chdir place (b'b' ∷ []) b refl refl refl refl

prompt_test : change_prompt_command ((b'c' ∷ []) ∷ (b'x' ∷ []) ∷ []) ≡ b'x' ∷ b'>' ∷ b' ' ∷ []
unfolding change_prompt_command
prompt_test = refl
