-- ===== src/Shell/Dispatch/Split.antt =====
-- Lines with `>` or `|` in hw1/Commands.cpp.
use operations_systems.Base.{
  ℕ, suc, ◌≡◌, refl, Bool, true, false, some, [], ◌∷◌, ◌++◌, length, get_elem?, ◌==◌, if◌then◌else◌,
  All,
}
use operations_systems.Shell.Text.{Text, drop, is_byte, trim}
use operations_systems.Shell.Text.Trim.{find_first_behind, take-length_only}
use operations_systems.Shell.Text.Contains.{contains-sign_trim, contains-behind, contains_none}
use operations_systems.Shell.Dispatch.{redirection, pipe, byte_or_zero, cut_background, kind_of}

get_elem?-behind :
    (l : Text) (c : ℕ) (s : Text) → get_elem? (l ++ c ∷ s) (suc (length l)) ≡ get_elem? s 0
get_elem?-behind [] c s = refl
get_elem?-behind (d ∷ l) c s = get_elem?-behind l c s

drop-behind : (l : Text) (c : ℕ) (s : Text) → drop (suc (length l)) (l ++ c ∷ s) ≡ s
drop-behind [] c s = refl
drop-behind (d ∷ l) c s = drop-behind l c s

drop-behind_two :
    (l : Text) (c : ℕ) (s : Text) → drop (suc (suc (length l))) (l ++ c ∷ s) ≡ drop 1 s
drop-behind_two [] c s = refl
drop-behind_two (d ∷ l) c s = drop-behind_two l c s

-- A command line with `>`: what is before the first one, up to its last `&`, is the command, and what
-- is behind, trimmed, is the file; the output is appended where another `>` follows at once.
pub kind_of-redirection :
    (cmd s : Text)
    → All (λ c. is_byte b'>' c ≡ false) cmd
    → kind_of (cmd ++ b'>' ∷ s)
      ≡ some (
          let append = byte_or_zero (get_elem? s 0) == b'>' in
          redirection (cut_background cmd) (trim (if append then drop 1 s else s)) append)
unfolding kind_of
kind_of-redirection cmd s a =
    rw
      (
        kind_of,
        contains-sign_trim b'>' (cmd ++ b'>' ∷ s) refl,
        contains-behind (is_byte b'>') cmd b'>' s refl,
        find_first_behind (is_byte b'>') cmd b'>' s a refl,
        get_elem?-behind cmd b'>' s,
        take-length_only cmd (b'>' ∷ s),
      )
      (chosen (byte_or_zero (get_elem? s 0) == b'>'))
  where
    chosen :
        (b : Bool)
        → some (
            redirection
              (cut_background cmd)
              (trim
                (drop (if b then suc (suc (length cmd)) else suc (length cmd)) (cmd ++ b'>' ∷ s)))
              b)
          ≡ some (redirection (cut_background cmd) (trim (if b then drop 1 s else s)) b)
    chosen true = rw (drop-behind_two cmd b'>' s) refl
    chosen false = rw (drop-behind cmd b'>' s) refl

AllWithout-append :
    (d : ℕ) (l s : Text)
    → All (λ c. is_byte d c ≡ false) l
    → All (λ c. is_byte d c ≡ false) s
    → All (λ c. is_byte d c ≡ false) (l ++ s)
AllWithout-append d [] s a b = b
AllWithout-append d (c ∷ l) s (h, a) b = (h, AllWithout-append d l s a b)

-- A command line with `|` and no `>`: what is before the first `|` and what is behind, each up to its
-- last `&`, are the commands; the errors go into the pipe where `&` follows at once.
pub kind_of-pipe :
    (cmd s : Text)
    → All (λ c. is_byte b'|' c ≡ false) cmd
    → All (λ c. is_byte b'>' c ≡ false) cmd
    → All (λ c. is_byte b'>' c ≡ false) s
    → kind_of (cmd ++ b'|' ∷ s)
      ≡ some (
          let redir_err = byte_or_zero (get_elem? s 0) == b'&' in
          pipe (cut_background cmd) (cut_background (if redir_err then drop 1 s else s)) redir_err)
unfolding kind_of
kind_of-pipe cmd s a e e' =
    rw
      (
        kind_of,
        contains-sign_trim b'>' (cmd ++ b'|' ∷ s) refl,
        contains_none (is_byte b'>') (cmd ++ b'|' ∷ s)
            (AllWithout-append b'>' cmd (b'|' ∷ s) e (refl, e')),
        contains-sign_trim b'|' (cmd ++ b'|' ∷ s) refl,
        contains-behind (is_byte b'|') cmd b'|' s refl,
        find_first_behind (is_byte b'|') cmd b'|' s a refl,
        get_elem?-behind cmd b'|' s,
        take-length_only cmd (b'|' ∷ s),
      )
      (chosen (byte_or_zero (get_elem? s 0) == b'&'))
  where
    chosen :
        (e : Bool)
        → some (
            pipe
              (cut_background cmd)
              (cut_background
                (drop (if e then suc (suc (length cmd)) else suc (length cmd)) (cmd ++ b'|' ∷ s)))
              e)
          ≡ some (pipe (cut_background cmd) (cut_background (if e then drop 1 s else s)) e)
    chosen true = rw (drop-behind_two cmd b'|' s) refl
    chosen false = rw (drop-behind cmd b'|' s) refl
