-- ===== src/Shell/Text/Trim.antt =====
-- `_trim` of hw1/Commands.cpp.
use mathlib.Core.List.{append_assoc}
use operations_systems.Base.{
  ℕ, suc, ◌≡◌, refl, ap, ◌∙◌, Bool, true, false, none, some, [], ◌∷◌, ◌++◌, length, get_elem?, All,
}
use operations_systems.Shell.Text.{
  Text, not_space, take, drop, find_first, find_last, ltrim, rtrim, trim,
}

abbrev pub AllSpace : Text → Type 0
AllSpace s = All (λ c. not_space c ≡ false) s

-- A hit behind bytes that fail, or before them.
module _ (p : ℕ → Bool) where
  pub find_first_behind :
      (l : Text) (c : ℕ) (s : Text)
      → All (λ d. p d ≡ false) l
      → p c ≡ true
      → find_first p (l ++ c ∷ s) ≡ some (length l)
  find_first_behind [] c s a h = rw h refl
  find_first_behind (d ∷ l) c s (e, a) h = rw (e, find_first_behind l c s a h) refl

  pub find_first-none : (l : Text) → All (λ d. p d ≡ false) l → find_first p l ≡ none
  find_first-none [] a = refl
  find_first-none (d ∷ l) (e, a) = rw (e, find_first-none l a) refl

  pub find_last-none : (l : Text) → All (λ d. p d ≡ false) l → find_last p l ≡ none
  find_last-none [] a = refl
  find_last-none (d ∷ l) (e, a) = rw (find_last-none l a, e) refl

  pub find_last_before :
      (l : Text) (c : ℕ) (s : Text)
      → All (λ d. p d ≡ false) s
      → p c ≡ true
      → find_last p (l ++ c ∷ s) ≡ some (length l)
  find_last_before [] c s a h = rw (find_last-none s a, h) refl
  find_last_before (d ∷ l) c s a h = rw (find_last_before l c s a h) refl

pub drop-length : (l s : Text) → drop (length l) (l ++ s) ≡ s
drop-length [] s = refl
drop-length (c ∷ l) s = drop-length l s

pub take-length : (l : Text) (c : ℕ) (s : Text) → take (suc (length l)) (l ++ c ∷ s) ≡ l ++ c ∷ []
take-length [] c s = refl
take-length (d ∷ l) c s = ap (λ t. d ∷ t) (take-length l c s)

pub take-length_only : (l s : Text) → take (length l) (l ++ s) ≡ l
take-length_only [] s = refl
take-length_only (d ∷ l) s = ap (λ t. d ∷ t) (take-length_only l s)

pub get_elem?-length : (l : Text) (c : ℕ) (s : Text) → get_elem? (l ++ c ∷ s) (length l) ≡ some c
get_elem?-length [] c s = refl
get_elem?-length (d ∷ l) c s = get_elem?-length l c s

-- A text that neither starts nor ends with whitespace.
pub data IsTight : Text → Type 0 where
  empty : IsTight []
  one : (c : ℕ) → not_space c ≡ true → IsTight (c ∷ [])
  more :
      (c : ℕ) (m : Text) (d : ℕ)
      → not_space c ≡ true
      → not_space d ≡ true
      → IsTight (c ∷ m ++ d ∷ [])

ltrim-space : (l : Text) → AllSpace l → ltrim l ≡ []
unfolding ltrim
ltrim-space l a = rw (find_first-none not_space l a) refl

pub ltrim_behind :
    (l : Text) (c : ℕ) (s : Text) → AllSpace l → not_space c ≡ true → ltrim (l ++ c ∷ s) ≡ c ∷ s
unfolding ltrim
ltrim_behind l c s a h = rw (find_first_behind not_space l c s a h) (drop-length l (c ∷ s))

pub rtrim_before :
    (l : Text) (c : ℕ) (s : Text)
    → AllSpace s
    → not_space c ≡ true
    → rtrim (l ++ c ∷ s) ≡ l ++ c ∷ []
unfolding rtrim
rtrim_before l c s a h = rw (find_last_before not_space l c s a h) (take-length l c s)

pub AllSpace-append : (l r : Text) → AllSpace l → AllSpace r → AllSpace (l ++ r)
AllSpace-append [] r a b = b
AllSpace-append (c ∷ l) r (h, a) b = (h, AllSpace-append l r a b)

rtrim_empty : rtrim [] ≡ []
unfolding rtrim
rtrim_empty = refl

-- `_trim` takes away the whitespace at both ends and no more.
pub trim-IsTight : (l m r : Text) → AllSpace l → IsTight m → AllSpace r → trim (l ++ (m ++ r)) ≡ m
unfolding trim
trim-IsTight l _ r a empty b =
    ap rtrim (ltrim-space (l ++ r) (AllSpace-append l r a b)) ∙ rtrim_empty
trim-IsTight l _ r a (one c h) b = ap rtrim (ltrim_behind l c r a h) ∙ rtrim_before [] c r b h
trim-IsTight l _ r a (more c m d h h') b =
    ap rtrim
      (ltrim_behind l c ((m ++ d ∷ []) ++ r) a h ∙ ap (λ t. c ∷ t) (append_assoc m (d ∷ []) r))
    ∙ rtrim_before (c ∷ m) d r b h'
