-- ===== src/WebServer/Server/Family.antt =====
-- Sums over the first `n` threads, and the change of one of them.
use operations_systems.Base.{
  ℕ, zero, suc, ◌+◌, ◌≤◌, ◌<◌, ◌≡◌, refl, Bool-cases, inl, inr, arith, ◌==◌, if◌then◌else◌,
}

abbrev pub update {ℓ} : {A : Type ℓ} → (ℕ → A) → ℕ → A → ℕ → A
update f i a k = if k == i then a else f k

module _ {ℓ} {A : Type ℓ} (weight : A → ℕ) where
  pub total : ℕ → (ℕ → A) → ℕ
  total zero f = 0
  total (suc n) f = weight (f n) + total n f

  total_outside : (n i : ℕ) (f : ℕ → A) (a : A) → n ≤ i → total n (update f i a) ≡ total n f
  unfolding total
  total_outside zero i f a h = refl
  total_outside (suc n) i f a h = ground (arith, total_outside n i f a)

  -- Changing one member trades its weight.
  pub total-update :
      (n i : ℕ) (f : ℕ → A) (a : A)
      → i < n
      → total n (update f i a) + weight (f i) ≡ total n f + weight a
  unfolding total
  total-update zero i f a h = elim h [ ]
  total-update (suc n) i f a h = elim (Bool-cases (n == i)) [
    | inl here ↦ ground (arith, total_outside n i f a)
    | inr later ↦ ground (arith, total-update n i f a)
  ]

  pub total-congr :
      (n : ℕ) (f g : ℕ → A) → ((k : ℕ) → weight (f k) ≡ weight (g k)) → total n f ≡ total n g
  unfolding total
  total-congr zero f g h = refl
  total-congr (suc n) f g h = omega (arith, h n, total-congr n f g h)

  -- A positive total has a member of positive weight.
  pub total_pos : (n : ℕ) (f : ℕ → A) → 0 < total n f → (k : ℕ) × (k < n) × (0 < weight (f k))
  unfolding total
  total_pos zero f h = absurd (omega arith)
  total_pos (suc n) f h = elim (Bool-cases (weight (f n) == 0)) [
    | inl none_here ↦ let (k, below, w) = total_pos n f (ground arith) in (k, omega arith, w)
    | inr here ↦ (n, omega arith, ground arith)
  ]

  pub total_ge : (n j : ℕ) (f : ℕ → A) → j < n → weight (f j) ≤ total n f
  unfolding total
  total_ge zero j f h = elim h [ ]
  total_ge (suc n) j f h = elim (Bool-cases (n == j)) [
    | inl here ↦ ground arith
    | inr later ↦ ground (arith, total_ge n j f)
  ]

  pub total_zero : (n : ℕ) (f : ℕ → A) → ((k : ℕ) → weight (f k) ≡ 0) → total n f ≡ 0
  unfolding total
  total_zero zero f h = refl
  total_zero (suc n) f h = omega (arith, h n, total_zero n f h)
