-- ===== src/Shell/Text/Words.antt =====
-- `_parseCommandLine` of hw1/Commands.cpp.
use operations_systems.Base.{
  ℕ, ◌≡◌, refl, sym, ap, ◌∙◌, inl, inr, Bool, true, false, Bool-cases, not, Option, none, some,
  Option-cases, List, [], ◌∷◌, ◌++◌, map, length, ltb, if◌then◌else◌, All,
}
use operations_systems.Shell.Text.{
  Text, is_space, not_space, find_first, find_last, after, or_here, from_index, up_to_index, ltrim,
  rtrim, trim, starts_word, words, command_max_args, parse_command_line,
}
use operations_systems.Shell.Text.Trim.{AllSpace}

is_space_of : (c : ℕ) → not_space c ≡ false → is_space c ≡ true
is_space_of c h = not_false (is_space c) h
  where
    not_false : (b : Bool) → not b ≡ false → b ≡ true
    not_false true h = refl
    not_false false h = cc

not_is_space : (c : ℕ) → not_space c ≡ true → is_space c ≡ false
not_is_space c h = not_true (is_space c) h
  where
    not_true : (b : Bool) → not b ≡ true → b ≡ false
    not_true true h = cc
    not_true false h = refl

-- Whitespace at the ends makes no word.
words-from_index : (s : Text) → words (from_index s (find_first not_space s)) ≡ words s
words-from_index [] = refl
words-from_index (c ∷ s) = elim (Bool-cases (not_space c)) [
  | inl e ↦ rw e refl
  | inr e ↦ rw (e, is_space_of c e) (skipped (find_first not_space s) ∙ words-from_index s)
]
  where
    skipped : (o : Option ℕ) → words (from_index (c ∷ s) (after o)) ≡ words (from_index s o)
    skipped none = refl
    skipped (some i) = refl

-- What lies in front of the last byte of a word.
starts_word-up_to_index : (s : Text) (i : ℕ) → starts_word (up_to_index s (some i)) ≡ starts_word s
starts_word-up_to_index [] i = refl
starts_word-up_to_index (c ∷ s) i = refl

blank : (s : Text) → find_last not_space s ≡ none → (words s ≡ []) × (starts_word s ≡ false)
blank [] e = (refl, refl)
blank (c ∷ s) e = elim (Option-cases (find_last not_space s)) [
  | inl none_behind ↦
      let here = here_none (not_space c) (ap (or_here (not_space c)) (sym none_behind) ∙ e) in
      (rw (is_space_of c here) ((blank s none_behind).0), here)
  | inr (i, behind) ↦ absurd (not_none (sym (ap (or_here (not_space c)) behind) ∙ e))
]
  where
    here_none : (b : Bool) → or_here b none ≡ none → b ≡ false
    here_none true e = cc
    here_none false e = refl

    not_none : {i : ℕ} → ¬ (some i ≡ none)
    not_none e = cc

words-up_to_index : (s : Text) → words (up_to_index s (find_last not_space s)) ≡ words s
words-up_to_index [] = refl
words-up_to_index (c ∷ s) = elim (Option-cases (find_last not_space s)) [
  | inl none_behind ↦
      let (no_words, no_start) = blank s none_behind in
      rw none_behind (last (not_space c) refl no_words no_start)
  | inr (i, behind) ↦
      let rest = sym (ap (λ o. words (up_to_index s o)) behind) ∙ words-up_to_index s in
      rw (behind, starts_word-up_to_index s i, rest) refl
]
  where
    last :
        (b : Bool)
        → not_space c ≡ b
        → words s ≡ []
        → starts_word s ≡ false
        → words (up_to_index (c ∷ s) (or_here b none)) ≡ words (c ∷ s)
    last true e no_words no_start = rw (not_is_space c e, no_start, no_words) refl
    last false e no_words no_start = rw (is_space_of c e, no_words) refl

pub words-trim : (s : Text) → words (trim s) ≡ words s
unfolding trim ltrim rtrim
words-trim s = words-up_to_index (from_index s (find_first not_space s)) ∙ words-from_index s

-- A word and what separates it from the next: whitespace, of which only the last may be empty.
abbrev pub IsWord : Text → Type 0
IsWord [] = ⊥
IsWord (c ∷ w) = All (λ d. not_space d ≡ true) (c ∷ w)

abbrev pub IsGap : Text → Type 0
IsGap [] = ⊥
IsGap (c ∷ g) = AllSpace (c ∷ g)

abbrev pub unwords : List (Text × Text) → Text
unwords [] = []
unwords ((w, g) ∷ r) = w ++ (g ++ unwords r)

abbrev pub AreWords : List (Text × Text) → Type 0
AreWords [] = Unit {0}
AreWords ((w, g) ∷ []) = IsWord w × AllSpace g
AreWords ((w, g) ∷ x ∷ r) = IsWord w × IsGap g × AreWords (x ∷ r)

words-space : (g s : Text) → AllSpace g → words (g ++ s) ≡ words s
words-space [] s a = refl
words-space (c ∷ g) s (e, a) = rw (is_space_of c e) (words-space g s a)

words-word : (w t : Text) → IsWord w → starts_word t ≡ false → words (w ++ t) ≡ w ∷ words t
words-word [] t h e = elim h [ ]
words-word (c ∷ []) t (h, _) e = rw (not_is_space c h, e) refl
words-word (c ∷ d ∷ w) t (h, (h', a)) e =
    rw (not_is_space c h, h', words-word (d ∷ w) t (h', a) e) refl

starts_word-gap : (g s : Text) → IsGap g → starts_word (g ++ s) ≡ false
starts_word-gap [] s h = elim h [ ]
starts_word-gap (c ∷ g) s (e, a) = e

AllSpace-of_gap : (g : Text) → IsGap g → AllSpace g
AllSpace-of_gap [] h = tt
AllSpace-of_gap (c ∷ g) h = h

starts_word-space : (g : Text) → AllSpace g → starts_word (g ++ []) ≡ false
starts_word-space [] a = refl
starts_word-space (c ∷ g) (e, a) = e

words-unwords : (ws : List (Text × Text)) → AreWords ws → words (unwords ws) ≡ map (λ x. x.0) ws
words-unwords [] h = refl
words-unwords ((w, g) ∷ []) (h, a) =
    words-word w (g ++ []) h (starts_word-space g a) ∙ ap (λ r. w ∷ r) (words-space g [] a)
words-unwords ((w, g) ∷ x ∷ r) (h, gap, rest) =
    words-word w (g ++ unwords (x ∷ r)) h (starts_word-gap g _ gap)
    ∙ ap (λ t. w ∷ t)
        (words-space g (unwords (x ∷ r)) (AllSpace-of_gap g gap) ∙ words-unwords (x ∷ r) rest)

-- A line of words with any whitespace before, between and behind them has these words as arguments,
-- where there are fewer than 20; with more, the closing NULL is written past `args`.
pub parse_command_line-unwords :
    (l : Text) (ws : List (Text × Text))
    → AllSpace l
    → AreWords ws
    → parse_command_line (l ++ unwords ws) ≡ (
        if ltb (length (map (λ x. x.0) ws)) command_max_args
        then some (map (λ x. x.0) ws)
        else none)
unfolding parse_command_line
parse_command_line-unwords l ws a h = λ i.
    let args = (words-trim (l ++ unwords ws) ∙ words-space l _ a ∙ words-unwords ws h) i in
    if ltb (length args) command_max_args then some args else none
