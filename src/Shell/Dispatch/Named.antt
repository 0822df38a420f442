-- ===== src/Shell/Dispatch/Named.antt =====
-- Lines without `>` and `|` in hw1/Commands.cpp: the first word decides.
use mathlib.Core.List.{append_assoc}
use operations_systems.Base.{
  ℕ, ◌≡◌, refl, sym, ap, ◌∙◌, ◌⊎◌, inl, inr, true, false, Bool-cases, ◌||◌, Option, none, some,
  List, [], ◌∷◌, ◌++◌, arith, ◌==◌, All,
}
use operations_systems.Shell.Text.{Text, not_space, is_byte, is_background_command}
use operations_systems.Shell.Text.Trim.{
  AllSpace, IsTight, empty, one, more, trim-IsTight, find_first_behind, find_first-none,
  take-length_only,
}
use operations_systems.Shell.Text.Background.{is_background_command-last, background-Blank}
use operations_systems.Shell.Text.Contains.{contains-sign_trim, contains_none}
use operations_systems.Shell.Dispatch.{
  Kind, get_curr_dir, change_prompt, show_pid, quit, change_dir, jobs, kill, foreground, background,
  tail, touch, timeout, external, eq_text, external_of, kind_by_word, named, names, first_word,
  whole_or_take, kind_of,
}

-- `m` begins with the word `n`, which a space ends if anything follows.
abbrev pub BeginsWith : Text → Text → Type 0
BeginsWith n m = All (λ c. not_space c ≡ true) n × ((m ≡ n) ⊎ ((s : Text) × (m ≡ n ++ b' ' ∷ s)))

no_end :
    (n : Text) → All (λ c. not_space c ≡ true) n → All (λ c. (c == b' ' || c == b'\n') ≡ false) n
no_end [] a = tt
no_end (c ∷ n) (h, a) = (inside, no_end n a)
  where
    inside : (c == b' ' || c == b'\n') ≡ false
    inside = ground arith

first_word-BeginsWith : (n m : Text) → BeginsWith n m → first_word m ≡ n
first_word-BeginsWith n m (a, inl e) =
    ap first_word e ∙ ap (whole_or_take n) (find_first-none _ n (no_end n a))
first_word-BeginsWith n m (a, inr (s, e)) =
    ap first_word e
    ∙ ap (whole_or_take (n ++ b' ' ∷ s)) (find_first_behind _ n b' ' s (no_end n a) refl)
    ∙ take-length_only n (b' ' ∷ s)

abbrev pub NoSign : Text → Type 0
NoSign s = All (λ c. is_byte b'>' c ≡ false) s × All (λ c. is_byte b'|' c ≡ false) s

kind_of-word :
    (l m r n : Text)
    → AllSpace l
    → IsTight m
    → AllSpace r
    → NoSign (l ++ (m ++ r))
    → BeginsWith n m
    → kind_of (l ++ (m ++ r)) ≡ kind_by_word (l ++ (m ++ r)) (named names n)
unfolding kind_of
kind_of-word l m r n a t b (no_arrow, no_pipe) w =
    rw
      (
        kind_of,
        contains-sign_trim b'>' (l ++ (m ++ r)) refl,
        contains_none (is_byte b'>') (l ++ (m ++ r)) no_arrow,
        contains-sign_trim b'|' (l ++ (m ++ r)) refl,
        contains_none (is_byte b'|') (l ++ (m ++ r)) no_pipe,
      )
      (ap (λ x. kind_by_word (l ++ (m ++ r)) (named names (first_word x)))
          (trim-IsTight l m r a t b)
        ∙ ap (λ x. kind_by_word (l ++ (m ++ r)) (named names x)) (first_word-BeginsWith n m w))

-- The words of the built-in commands, and the class of each.
pub data Names (n : Text) : Kind → Type 0 where
  is_pwd : n ≡ b'p' ∷ b'w' ∷ b'd' ∷ [] → Names n get_curr_dir
  is_chprompt :
      n ≡ b'c' ∷ b'h' ∷ b'p' ∷ b'r' ∷ b'o' ∷ b'm' ∷ b'p' ∷ b't' ∷ [] → Names n change_prompt
  is_showpid : n ≡ b's' ∷ b'h' ∷ b'o' ∷ b'w' ∷ b'p' ∷ b'i' ∷ b'd' ∷ [] → Names n show_pid
  is_quit : n ≡ b'q' ∷ b'u' ∷ b'i' ∷ b't' ∷ [] → Names n quit
  is_cd : n ≡ b'c' ∷ b'd' ∷ [] → Names n change_dir
  is_jobs : n ≡ b'j' ∷ b'o' ∷ b'b' ∷ b's' ∷ [] → Names n jobs
  is_kill : n ≡ b'k' ∷ b'i' ∷ b'l' ∷ b'l' ∷ [] → Names n kill
  is_fg : n ≡ b'f' ∷ b'g' ∷ [] → Names n foreground
  is_bg : n ≡ b'b' ∷ b'g' ∷ [] → Names n background
  is_tail : n ≡ b't' ∷ b'a' ∷ b'i' ∷ b'l' ∷ [] → Names n tail
  is_touch : n ≡ b't' ∷ b'o' ∷ b'u' ∷ b'c' ∷ b'h' ∷ [] → Names n touch
  is_timeout : n ≡ b't' ∷ b'i' ∷ b'm' ∷ b'e' ∷ b'o' ∷ b'u' ∷ b't' ∷ [] → Names n timeout

-- The class where the first word names no command: an external one, in the background where the last
-- byte that is not whitespace is `&`. A line of whitespace only has no class.
abbrev pub by_last_byte : Text → Option Kind
by_last_byte [] = none
by_last_byte (c ∷ []) = some (external (c == b'&'))
by_last_byte (c ∷ d ∷ s) = by_last_byte (d ∷ s)

-- What the word `n` chooses on a line whose text, without the whitespace around it, is `m`.
abbrev pub Chooses : (n m : Text) → Option Kind → Type 0
Chooses n m o =
    ((k : Kind) → Names n k → o ≡ some k) × (((k : Kind) → ¬ Names n k) → o ≡ by_last_byte m)

eq_text-true : (s t : Text) → eq_text s t ≡ true → s ≡ t
eq_text-true [] [] e = refl
eq_text-true [] (d ∷ t) e = cc
eq_text-true (c ∷ s) [] e = cc
eq_text-true (c ∷ s) (d ∷ t) e = λ i. same_head i ∷ eq_text-true s t same_tail i
  where
    same_head : c ≡ d
    same_head = ground arith

    same_tail : eq_text s t ≡ true
    same_tail = ground arith

named-none : (ns : List (Text × Kind)) (w : Text) → All (λ r. ¬ (w ≡ r.0)) ns → named ns w ≡ none
named-none [] w a = refl
named-none ((n, k) ∷ ns) w (ne, a) = elim (Bool-cases (eq_text w n)) [
  | inl e ↦ absurd (ne (eq_text-true w n e))
  | inr e ↦ rw e (named-none ns w a)
]

named-Names : (n : Text) (k : Kind) → Names n k → named names n ≡ some k
named-Names n _ (is_pwd e) = ap (named names) e
named-Names n _ (is_chprompt e) = ap (named names) e
named-Names n _ (is_showpid e) = ap (named names) e
named-Names n _ (is_quit e) = ap (named names) e
named-Names n _ (is_cd e) = ap (named names) e
named-Names n _ (is_jobs e) = ap (named names) e
named-Names n _ (is_kill e) = ap (named names) e
named-Names n _ (is_fg e) = ap (named names) e
named-Names n _ (is_bg e) = ap (named names) e
named-Names n _ (is_tail e) = ap (named names) e
named-Names n _ (is_touch e) = ap (named names) e
named-Names n _ (is_timeout e) = ap (named names) e

no_Names : (n : Text) → ((k : Kind) → ¬ Names n k) → All (λ r. ¬ (n ≡ r.0)) names
no_Names n no_name = (
  λ e. no_name get_curr_dir (is_pwd e),
  (
    λ e. no_name change_prompt (is_chprompt e),
    (
      λ e. no_name show_pid (is_showpid e),
      (
        λ e. no_name quit (is_quit e),
        (
          λ e. no_name change_dir (is_cd e),
          (
            λ e. no_name jobs (is_jobs e),
            (
              λ e. no_name kill (is_kill e),
              (
                λ e. no_name foreground (is_fg e),
                (
                  λ e. no_name background (is_bg e),
                  (
                    λ e. no_name tail (is_tail e),
                    (λ e. no_name touch (is_touch e), (λ e. no_name timeout (is_timeout e), tt)),
                  ),
                ),
              ),
            ),
          ),
        ),
      ),
    ),
  ),
)

AllSpace-append : (l r : Text) → AllSpace l → AllSpace r → AllSpace (l ++ r)
AllSpace-append [] r a b = b
AllSpace-append (c ∷ l) r (h, a) b = (h, AllSpace-append l r a b)

by_last_byte-snoc : (m : Text) (d : ℕ) → by_last_byte (m ++ d ∷ []) ≡ some (external (d == b'&'))
by_last_byte-snoc [] d = refl
by_last_byte-snoc (c ∷ []) d = refl
by_last_byte-snoc (c ∷ e ∷ m) d = by_last_byte-snoc (e ∷ m) d

is_background_command-by_last_byte :
    (l m r : Text)
    → AllSpace l
    → IsTight m
    → AllSpace r
    → external_of (is_background_command (l ++ (m ++ r))) ≡ by_last_byte m
is_background_command-by_last_byte l _ r a empty b =
    ap external_of (background-Blank (l ++ r) (AllSpace-append l r a b)).0
is_background_command-by_last_byte l _ r a (one c h) b =
    ap external_of (is_background_command-last l c r h b)
is_background_command-by_last_byte l _ r a (more c m d h h') b =
    ap (λ t. external_of (is_background_command (l ++ c ∷ t))) (append_assoc m (d ∷ []) r)
    ∙ ap (λ t. external_of (is_background_command t)) (sym (append_assoc l (c ∷ m) (d ∷ r)))
    ∙ ap external_of (is_background_command-last (l ++ c ∷ m) d r h' b)
    ∙ sym (by_last_byte-snoc (c ∷ m) d)

-- The first word of a line without `>` and `|`, up to a space or the end, chooses the class: a
-- built-in command where it is one of the twelve words, or else an external one, in the background
-- where the last byte that is not whitespace is `&`. A blank line has no class.
pub kind_of-named :
    (l m r n : Text)
    → AllSpace l
    → IsTight m
    → AllSpace r
    → NoSign (l ++ (m ++ r))
    → BeginsWith n m
    → Chooses n m (kind_of (l ++ (m ++ r)))
kind_of-named l m r n a t b no_sign w = (
  λ k h. by_word ∙ ap (kind_by_word (l ++ (m ++ r))) (named-Names n k h),
  λ no_name.
      by_word
      ∙ ap (kind_by_word (l ++ (m ++ r))) (named-none names n (no_Names n no_name))
      ∙ is_background_command-by_last_byte l m r a t b,
)
  where
    by_word : kind_of (l ++ (m ++ r)) ≡ kind_by_word (l ++ (m ++ r)) (named names n)
    by_word = kind_of-word l m r n a t b no_sign w
