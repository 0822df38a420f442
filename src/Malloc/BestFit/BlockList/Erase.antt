-- ===== src/Malloc/BestFit/BlockList/Erase.antt =====
-- A list of blocks without one of them.
use operations_systems.Base.{
  suc, ◌≡◌, inl, inr, Bool, true, false, Bool-cases, List, [], ◌∷◌, arith, All, length,
  if◌then◌else◌, ◌==◌, ◌||◌,
}
use operations_systems.Malloc.Words.{Ptr}
use operations_systems.Malloc.BestFit.Memory.{Memory}
use operations_systems.Malloc.BestFit.BlockList.{before}
use operations_systems.Malloc.BestFit.BlockList.Chain.{Apart, Spread}
use operations_systems.Malloc.BestFit.BlockList.Order.{Ascending}

abbrev pub has : (q : Ptr) → List Ptr → Bool
has q [] = false
has q (x ∷ xs) = x == q || has q xs

abbrev pub erase : (q : Ptr) → List Ptr → List Ptr
erase q [] = []
erase q (x ∷ xs) = if x == q then xs else x ∷ erase q xs

module _ (q : Ptr) where
  pub erase-All : (P : Ptr → Type 0) (xs : List Ptr) → All P xs → All P (erase q xs)
  erase-All P [] ps = tt
  erase-All P (x ∷ xs) (px, ps) = elim (Bool-cases (x == q)) [
    | inl e ↦ rw e ps
    | inr e ↦ rw e (px, erase-All P xs ps)
  ]

  pub erase-Spread : (xs : List Ptr) → Spread xs → Spread (erase q xs)
  erase-Spread [] s = tt
  erase-Spread (x ∷ xs) (a, s) = elim (Bool-cases (x == q)) [
    | inl e ↦ rw e s
    | inr e ↦ rw e (erase-All (Apart x) xs a, erase-Spread xs s)
  ]

  pub erase-Ascending : (m : Memory) (xs : List Ptr) → Ascending m xs → Ascending m (erase q xs)
  erase-Ascending m [] s = tt
  erase-Ascending m (x ∷ xs) (a, s) = elim (Bool-cases (x == q)) [
    | inl e ↦ rw e s
    | inr e ↦ rw e (erase-All (λ y. before m x y ≡ true) xs a, erase-Ascending m xs s)
  ]

  pub length-erase : (xs : List Ptr) → has q xs ≡ true → suc (length (erase q xs)) ≡ length xs
  length-erase [] h = ground arith
  length-erase (x ∷ xs) h = ground (arith, length-erase xs)
