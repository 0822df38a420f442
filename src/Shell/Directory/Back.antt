-- ===== src/Shell/Directory/Back.antt =====
-- cd - of hw1/Commands.cpp.
use operations_systems.Base.{◌≡◌, refl, sym, ap, ◌∙◌, true, false, Option, none, some, [], ◌∷◌}
use operations_systems.Shell.Text.{Text}
use operations_systems.Shell.Dispatch.{eq_text}
use operations_systems.Shell.Directory.{
  Place, report, old_pwd_not_set, change_dir_command, change_back, moved_to,
}

abbrev pub cd : Text
cd = b'c' ∷ b'd' ∷ []

abbrev pub dash : Text
dash = b'-' ∷ []

abbrev here : Place → (there : Text) → Place
here s there = record s { cwd = there; last_path = some s.cwd }

module _ (chdir : Text → Text → Option Text) (s : Place) (to there : Text) where
  went :
      eq_text to dash ≡ false
      → chdir s.cwd to ≡ some there
      → change_dir_command true chdir (cd ∷ to ∷ []) s ≡ here s there
  unfolding change_dir_command
  went not_dash go = rw (not_dash, go) refl

  returned :
      chdir there s.cwd ≡ some s.cwd
      → change_dir_command true chdir (cd ∷ dash ∷ []) (here s there)
        ≡ record s { last_path = some there }
  unfolding change_dir_command
  returned back = ap (moved_to (here s there)) back

  went_again :
      chdir s.cwd there ≡ some there
      → change_dir_command true chdir (cd ∷ dash ∷ []) (record s { last_path = some there })
        ≡ here s there
  unfolding change_dir_command
  went_again again = ap (moved_to (record s { last_path = some there })) again

  unset :
      s.last_path ≡ none
      → change_dir_command true chdir (cd ∷ dash ∷ []) s
        ≡ record (report s old_pwd_not_set) { last_path = some s.cwd }
  unfolding change_dir_command
  unset e = ap (change_back chdir s) e

-- After a cd that works, `cd -` returns to where it was, and again `cd -` to where it went; `cd -`
-- with no last path reports it and yet remembers the working directory as the last path.
pub change_dir_command-back :
    (chdir : Text → Text → Option Text) (s : Place) (to there : Text)
    → eq_text to dash ≡ false
    → chdir s.cwd to ≡ some there
    → chdir there s.cwd ≡ some s.cwd
    → chdir s.cwd there ≡ some there
    → (let went = change_dir_command true chdir (cd ∷ to ∷ []) s in
        let returned = change_dir_command true chdir (cd ∷ dash ∷ []) went in
        (went ≡ record s { cwd = there; last_path = some s.cwd })
        × (returned ≡ record s { last_path = some there })
        × (change_dir_command true chdir (cd ∷ dash ∷ []) returned ≡ went))
      × (s.last_path ≡ none
          → change_dir_command true chdir (cd ∷ dash ∷ []) s
            ≡ record (report s old_pwd_not_set) { last_path = some s.cwd })
change_dir_command-back chdir s to there not_dash go back again =
    let step = change_dir_command true chdir (cd ∷ dash ∷ []) in
    let first = went chdir s to there not_dash go in
    let second = ap step first ∙ returned chdir s to there back in
    (
      (first, second, ap step second ∙ went_again chdir s to there again ∙ sym first),
      unset chdir s to there,
    )
