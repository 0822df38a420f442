-- ===== src/Malloc/Naive/Regions.antt =====
-- The regions that calls of `smalloc` of hw4/malloc_1.cpp return.
use operations_systems.Base.{
  ℕ, ◌+◌, ◌≤◌, ◌<◌, ◌≡◌, refl, inl, inr, Bool, true, false, Bool-cases, ◌||◌, List, [], ◌∷◌, arith,
  ltb, ◌==◌, if◌then◌else◌,
}
use operations_systems.Malloc.Words.{Ptr, null, failed}
use operations_systems.Malloc.Naive.{smalloc}

-- Calls in order, each with the kernel's answer and the size; the regions that they return, and the
-- break behind them.
abbrev pub cons_region : Ptr → (size : ℕ) → List (Ptr × ℕ) × ℕ → List (Ptr × ℕ) × ℕ
cons_region p n r = if p == null then r else ((p, n) ∷ r.0, r.1)

abbrev pub regions : List (Bool × ℕ) → (brk : ℕ) → List (Ptr × ℕ) × ℕ
regions [] brk = ([], brk)
regions ((granted, n) ∷ calls) brk =
    cons_region (smalloc granted brk n).0 n (regions calls (smalloc granted brk n).1)

-- The regions fill the addresses from `lo` to `hi`, in order and without a gap, and are of valid
-- sizes.
abbrev pub Fill : (lo hi : ℕ) → List (Ptr × ℕ) → Type 0
Fill lo hi [] = lo ≡ hi
Fill lo hi ((p, n) ∷ rs) = (p ≡ lo) × (0 < n) × (n ≤ 100000000) × Fill (lo + n) hi rs

abbrev pub requested : List (Bool × ℕ) → ℕ
requested [] = 0
requested ((granted, n) ∷ calls) = n + requested calls

smalloc_invalid :
    (granted : Bool) (n brk : ℕ)
    → (n == 0 || ltb 100000000 n) ≡ true
    → smalloc granted brk n ≡ (null, brk)
unfolding smalloc
smalloc_invalid granted n brk invalid = rw (smalloc, invalid) refl

smalloc_granted :
    (n brk : ℕ)
    → (n == 0 || ltb 100000000 n) ≡ false
    → (brk == failed) ≡ false
    → smalloc true brk n ≡ (brk, brk + n)
unfolding smalloc
smalloc_granted n brk valid not_failed = rw (smalloc, valid, not_failed) refl

smalloc_denied : (n brk : ℕ) → smalloc false brk n ≡ (null, brk)
unfolding smalloc
smalloc_denied n brk = elim (Bool-cases (n == 0 || ltb 100000000 n)) [
  | inl invalid ↦ smalloc_invalid false n brk invalid
  | inr valid ↦ rw (smalloc, valid) refl
]

-- The regions that calls return fill the addresses that the break moved over, in order and without a
-- gap or an overlap, where all requests together stay below the last address.
pub regions-Fill :
    (calls : List (Bool × ℕ)) (brk : ℕ)
    → 0 < brk
    → brk + requested calls < failed
    → Fill brk (regions calls brk).1 (regions calls brk).0
regions-Fill [] brk pos_b room = refl
regions-Fill ((true, n) ∷ calls) brk pos_b room = elim (Bool-cases (n == 0 || ltb 100000000 n)) [
  | inl invalid ↦
      rw (smalloc_invalid true n brk invalid) (regions-Fill calls brk pos_b (omega arith))
  | inr valid ↦
      rw (smalloc_granted n brk valid not_failed, not_null)
        (refl, ground arith, ground arith, regions-Fill calls (brk + n) (omega arith) (omega arith))
]
  where
    not_failed : (brk == failed) ≡ false
    not_failed = ground arith

    not_null : (brk == null) ≡ false
    not_null = ground arith
regions-Fill ((false, n) ∷ calls) brk pos_b room =
    rw (smalloc_denied n brk) (regions-Fill calls brk pos_b (omega arith))
