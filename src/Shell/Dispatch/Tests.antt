-- ===== src/Shell/Dispatch/Tests.antt =====
-- Lines for `CreateCommand` of hw1/Commands.cpp.
use operations_systems.Base.{◌≡◌, refl, inr, true, some, [], ◌∷◌, ◌++◌}
use operations_systems.Shell.Text.{Text, trim}
use operations_systems.Shell.Text.Trim.{more}
use operations_systems.Shell.Dispatch.{redirection, pipe, cut_background, kind_of}
use operations_systems.Shell.Dispatch.Split.{kind_of-redirection, kind_of-pipe}
use operations_systems.Shell.Dispatch.Named.{Chooses, kind_of-named}

-- "a&&b".
abbrev both : Text
both = b'a' ∷ b'&' ∷ b'&' ∷ b'b' ∷ []

-- "a&&b>> f": the command that runs is "a&".
kind_of-redirection_example :
    kind_of (both ++ b'>' ∷ b'>' ∷ b' ' ∷ b'f' ∷ [])
    ≡ some (redirection (cut_background both) (trim (b' ' ∷ b'f' ∷ [])) true)
kind_of-redirection_example =
    kind_of-redirection both (b'>' ∷ b' ' ∷ b'f' ∷ []) (refl, (refl, (refl, (refl, tt))))

cut_background_test : cut_background both ≡ b'a' ∷ b'&' ∷ []
cut_background_test = refl

kind_of-pipe_example :
    kind_of (both ++ b'|' ∷ b'&' ∷ b'c' ∷ [])
    ≡ some (pipe (cut_background both) (cut_background (b'c' ∷ [])) true)
kind_of-pipe_example =
    kind_of-pipe both (b'&' ∷ b'c' ∷ []) (refl, (refl, (refl, (refl, tt))))
      (refl, (refl, (refl, (refl, tt)))) (refl, (refl, tt))

-- " kill 7".
abbrev kill_seven : Text
kill_seven = b'k' ∷ b'i' ∷ b'l' ∷ b'l' ∷ b' ' ∷ b'7' ∷ []

kind_of-named_example :
    Chooses (b'k' ∷ b'i' ∷ b'l' ∷ b'l' ∷ []) kill_seven (kind_of (b' ' ∷ (kill_seven ++ [])))
kind_of-named_example =
    kind_of-named (b' ' ∷ []) kill_seven [] (b'k' ∷ b'i' ∷ b'l' ∷ b'l' ∷ []) (refl, tt)
      (more b'k' (b'i' ∷ b'l' ∷ b'l' ∷ b' ' ∷ []) b'7' refl refl) tt
      (
        (refl, (refl, (refl, (refl, (refl, (refl, (refl, tt))))))),
        (refl, (refl, (refl, (refl, (refl, (refl, (refl, tt))))))),
      )
      ((refl, (refl, (refl, (refl, tt)))), inr (b'7' ∷ [], refl))
