-- ===== src/Malloc/BestFit/BlockList/Search.antt =====
-- `searchFreeBlock` of hw4/malloc_3.cpp finds the best fit.
use operations_systems.Base.{
  ℕ, zero, suc, ◌<◌, ◌≡◌, refl, ◌⊎◌, inl, inr, Bool, true, false, Bool-cases, List, [], ◌∷◌, arith,
  All, length, if◌then◌else◌, ◌&&◌, leb,
}
use mathlib.Core.Path.{subst, sym}
use operations_systems.Malloc.Words.{Ptr, null}
use operations_systems.Malloc.BestFit.Memory.{Memory, next_at, size_at, is_free_at, Heap, done}
use operations_systems.Malloc.BestFit.BlockList.{before, search_loop, search_free_block}
use operations_systems.Malloc.BestFit.BlockList.Chain.{Chain}
use operations_systems.Malloc.BestFit.BlockList.Order.{Ascending, IsList}
use operations_systems.Malloc.BestFit.BlockList.Links.{ne_null}
use operations_systems.Malloc.BestFit.BlockList.Erase.{has}

-- A free block of at least `size` bytes.
abbrev pub fits : Memory → (size : ℕ) → Ptr → Bool
fits m size x = is_free_at m x && leb size (size_at m x)

abbrev pub first_fit : Memory → (size : ℕ) → List Ptr → Ptr
first_fit m size [] = null
first_fit m size (x ∷ xs) = if fits m size x then x else first_fit m size xs

-- NULL where no block fits, and else the one that comes before all others that fit: the smallest, and
-- of those the one at the lowest address.
abbrev pub IsBest : Memory → (size : ℕ) → List Ptr → Ptr → Type 0
IsBest m size xs p =
    (p ≡ null) × All (λ x. fits m size x ≡ false) xs
    ⊎ ((has p xs ≡ true)
        × (fits m size p ≡ true)
        × All (λ x. fits m size x ≡ true → (x ≡ p) ⊎ (before m p x ≡ true)) xs)

search_loop-first_fit :
    (k : ℕ) (m : Memory) (size : ℕ) (back p : Ptr) (xs : List Ptr)
    → Chain m back p xs
    → length xs < k
    → search_loop k m size p ≡ done (first_fit m size xs)
unfolding search_loop
search_loop-first_fit zero m size back p xs c l = absurd (omega arith)
search_loop-first_fit (suc k) m size back p [] c l = rw c refl
search_loop-first_fit (suc k) m size back p (x ∷ xs) (n, c) l =
    rw (n.here, ne_null x n.not_null)
      (elim (Bool-cases (fits m size x)) [
        | inl e ↦ rw e refl
        | inr e ↦ rw e (search_loop-first_fit k m size x (next_at m x) xs c (omega arith))
      ])

module _ (m : Memory) (size : ℕ) where
  weaken :
      (p : Ptr) (xs : List Ptr)
      → All (λ x. before m p x ≡ true) xs
      → All (λ x. fits m size x ≡ true → (x ≡ p) ⊎ (before m p x ≡ true)) xs
  weaken p [] a = tt
  weaken p (x ∷ xs) (e, a) = (λ _. inr e, weaken p xs a)

  first_fit-IsBest : (xs : List Ptr) → Ascending m xs → IsBest m size xs (first_fit m size xs)
  first_fit-IsBest [] s = inl (refl, tt)
  first_fit-IsBest (x ∷ xs) (a, s) = elim (Bool-cases (fits m size x)) [
    | inl e ↦ subst (IsBest m size (x ∷ xs)) (sym (fit_eq e)) (now e)
    | inr e ↦ subst (IsBest m size (x ∷ xs)) (sym (skip_eq e)) (later e (first_fit-IsBest xs s))
  ]
    where
      fit_eq : fits m size x ≡ true → first_fit m size (x ∷ xs) ≡ x
      fit_eq e = rw e refl

      skip_eq : fits m size x ≡ false → first_fit m size (x ∷ xs) ≡ first_fit m size xs
      skip_eq e = rw e refl

      now : fits m size x ≡ true → IsBest m size (x ∷ xs) x
      now e = inr (ground arith, e, (λ _. inl refl, weaken x xs a))

      later :
          fits m size x ≡ false
          → IsBest m size xs (first_fit m size xs)
          → IsBest m size (x ∷ xs) (first_fit m size xs)
      later e (inl (z, r)) = inl (z, (e, r))
      later e (inr (i, f, b)) = inr (ground arith, f, (λ t. ground arith, b))

-- On a list of blocks, `searchFreeBlock` ends within fuel above the number of blocks with the best fit:
-- NULL where no free block is large enough, or else the smallest that is, at the lowest address.
pub search_free_block-IsBest :
    (fuel : ℕ) (h : Heap) (size : ℕ) (xs : List Ptr)
    → IsList h xs
    → length xs < fuel
    → (p : Ptr) × (search_free_block fuel h size ≡ done p) × IsBest h.memory size xs p
unfolding search_free_block
search_free_block-IsBest fuel h size xs is l = (
  first_fit h.memory size xs,
  search_loop-first_fit fuel h.memory size null h.head xs is.linked.chain l,
  first_fit-IsBest h.memory size xs is.ascending,
)
