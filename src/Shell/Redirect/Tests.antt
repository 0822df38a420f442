-- ===== src/Shell/Redirect/Tests.antt =====
-- A redirection of hw1/Commands.cpp.
use operations_systems.Base.{◌≡◌, refl, true, none, some, [], ◌∷◌, ltb, if◌then◌else◌}
use operations_systems.Shell.Redirect.{Descriptors, redirect}
use operations_systems.Shell.Redirect.Restored.{redirect-restored}

-- The terminal is open as 0, 1 and 2.
abbrev terminal : Descriptors
terminal n = if ltb n 3 then some [] else none

redirect-restored_example :
    redirect (some 3) true (λ f. some 1) true (λ c t. t) terminal (b'l' ∷ []) (b'f' ∷ []) true 1
    ≡ terminal 1
redirect-restored_example =
    redirect-restored (some 3) true (λ f. some 1) (λ c t. t) terminal (b'l' ∷ []) (b'f' ∷ []) true
      ((λ e. cc), refl) refl (λ c t. refl) 1
