-- ===== src/Shell/Text/Contains.antt =====
-- Searching a trimmed line of hw1/Commands.cpp.
use operations_systems.Base.{
  ℕ, ◌≡◌, refl, sym, ap, ◌∙◌, inl, inr, Bool, true, false, Bool-cases, Option, none, some,
  Option-cases, [], ◌∷◌, ◌++◌, arith, if◌then◌else◌, All,
}
use operations_systems.Shell.Text.{
  Text, not_space, is_byte, find_first, find_last, after, or_here, from_index, up_to_index, ltrim,
  rtrim, trim, contains,
}

-- Trimming removes no byte that is not whitespace.
module _ (p : ℕ → Bool) (not_of_space : (c : ℕ) → not_space c ≡ false → p c ≡ false) where
  contains-from_index :
      (s : Text) → contains p (from_index s (find_first not_space s)) ≡ contains p s
  contains-from_index [] = refl
  contains-from_index (c ∷ s) = elim (Bool-cases (not_space c)) [
    | inl e ↦ rw e refl
    | inr e ↦ rw (e, not_of_space c e) (skipped (find_first not_space s) ∙ contains-from_index s)
  ]
    where
      skipped :
          (o : Option ℕ) → contains p (from_index (c ∷ s) (after o)) ≡ contains p (from_index s o)
      skipped none = refl
      skipped (some i) = refl

  blank-contains : (s : Text) → find_last not_space s ≡ none → contains p s ≡ false
  blank-contains [] e = refl
  blank-contains (c ∷ s) e = elim (Option-cases (find_last not_space s)) [
    | inl none_behind ↦
        let here = here_none (not_space c) (ap (or_here (not_space c)) (sym none_behind) ∙ e) in
        rw (not_of_space c here) (blank-contains s none_behind)
    | inr (i, behind) ↦ absurd (not_none (sym (ap (or_here (not_space c)) behind) ∙ e))
  ]
    where
      here_none : (b : Bool) → or_here b none ≡ none → b ≡ false
      here_none true e = cc
      here_none false e = refl

      not_none : {i : ℕ} → ¬ (some i ≡ none)
      not_none e = cc

  contains-up_to_index :
      (s : Text) → contains p (up_to_index s (find_last not_space s)) ≡ contains p s
  contains-up_to_index [] = refl
  contains-up_to_index (c ∷ s) = elim (Option-cases (find_last not_space s)) [
    | inl none_behind ↦ rw none_behind (last (not_space c) refl (blank-contains s none_behind))
    | inr (i, behind) ↦ rw behind (λ k.
        if p c
        then true
        else (sym (ap (λ o. contains p (up_to_index s o)) behind) ∙ contains-up_to_index s) k)
  ]
    where
      last :
          (b : Bool)
          → not_space c ≡ b
          → contains p s ≡ false
          → contains p (up_to_index (c ∷ s) (or_here b none)) ≡ contains p (c ∷ s)
      last true e nothing = rw nothing refl
      last false e nothing = rw (not_of_space c e, nothing) refl

  pub contains-trim : (s : Text) → contains p (trim s) ≡ contains p s
  unfolding trim ltrim rtrim
  contains-trim s =
      contains-up_to_index (from_index s (find_first not_space s)) ∙ contains-from_index s

sign_not_space : (d : ℕ) → not_space d ≡ true → (c : ℕ) → not_space c ≡ false → is_byte d c ≡ false
sign_not_space d h c e = elim (Bool-cases (is_byte d c)) [
  | inl same ↦ absurd (clash (ap not_space (eq same)))
  | inr differs ↦ differs
]
  where
    eq : is_byte d c ≡ true → c ≡ d
    eq same = ground arith

    clash : ¬ (not_space c ≡ not_space d)
    clash q = cc

pub contains-sign_trim :
    (d : ℕ) (s : Text) → not_space d ≡ true → contains (is_byte d) (trim s) ≡ contains (is_byte d) s
contains-sign_trim d s h = contains-trim (is_byte d) (sign_not_space d h) s

pub contains-behind :
    (p : ℕ → Bool) (l : Text) (c : ℕ) (s : Text) → p c ≡ true → contains p (l ++ c ∷ s) ≡ true
contains-behind p [] c s h = rw h refl
contains-behind p (d ∷ l) c s h = elim (Bool-cases (p d)) [
  | inl e ↦ rw e refl
  | inr e ↦ rw e (contains-behind p l c s h)
]

pub contains_none : (p : ℕ → Bool) (s : Text) → All (λ c. p c ≡ false) s → contains p s ≡ false
contains_none p [] a = refl
contains_none p (c ∷ s) (e, a) = rw (e, contains_none p s a) refl
