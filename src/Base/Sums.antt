-- ===== src/Base/Sums.antt =====
-- Sums over a list, which do not depend on its order.
use mathlib.Core.Logic.{∥∥₁_elim}
use mathlib.Core.List.{Perm, Permᴰ}
use native.Mathlib.Nat.{ℕ_set}
use Prim.Native.Nat.{ℕ, ◌+◌}
use mathlib.Core.Path.{◌≡◌, refl, ◌∙◌, ap}
use mathlib.Core.List.{List, [], ◌∷◌, ◌++◌}
use native.Mathlib.Omega.{arith}
use operations_systems.Base.Lists.{length}

module _ {ℓ} {A : Type ℓ} (f : A → ℕ) where
  abbrev pub sum_of : List A → ℕ
  sum_of [] = 0
  sum_of (x ∷ xs) = f x + sum_of xs

  pub sum_of-append : (xs ys : List A) → sum_of (xs ++ ys) ≡ sum_of xs + sum_of ys
  sum_of-append [] ys = omega arith
  sum_of-append (x ∷ xs) ys = omega (arith, sum_of-append xs ys)

  sum_of-permᴰ : {xs ys : List A} → Permᴰ xs ys → sum_of xs ≡ sum_of ys
  sum_of-permᴰ Permᴰ.nil = refl
  sum_of-permᴰ (Permᴰ.cons e p) = omega (arith, ap f e, sum_of-permᴰ p)
  sum_of-permᴰ (Permᴰ.swap e d) = omega (arith, ap f e, ap f d)
  sum_of-permᴰ (Permᴰ.trans p q) = sum_of-permᴰ p ∙ sum_of-permᴰ q

  pub sum_of-perm : {xs ys : List A} → Perm xs ys → sum_of xs ≡ sum_of ys
  sum_of-perm p = ∥∥₁_elim p (ℕ_set _ _) sum_of-permᴰ

module _ {ℓ} {A : Type ℓ} where
  length-sum_of : (xs : List A) → length xs ≡ sum_of (λ _. 1) xs
  length-sum_of [] = refl
  length-sum_of (x ∷ xs) = omega (arith, length-sum_of xs)

  pub length-perm : {xs ys : List A} → Perm xs ys → length xs ≡ length ys
  length-perm {xs} {ys} p =
      omega (arith, length-sum_of xs, length-sum_of ys, sum_of-perm (λ _. 1) p)
