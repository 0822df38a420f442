-- ===== src/Malloc/BestFit/BlockList/Order.antt =====
-- Insertion into a list sorted by size and address.
use operations_systems.Base.{
  suc, ◌≡◌, refl, inl, inr, true, Bool-cases, List, [], ◌∷◌, arith, All, length,
}
use operations_systems.Base.Int.{pos}
use operations_systems.Malloc.Words.{Ptr, null}
use operations_systems.Malloc.BestFit.Memory.{Heap, Memory}
use operations_systems.Malloc.BestFit.BlockList.{before}
use operations_systems.Malloc.BestFit.BlockList.Chain.{Chain, Apart, Spread, Apart-sym}
use operations_systems.Malloc.BestFit.BlockList.Insert.{insert}

-- Every block comes before those behind it.
abbrev pub Ascending : Memory → List Ptr → Type 0
Ascending m [] = Unit
Ascending m (x ∷ xs) = All (λ y. before m x y ≡ true) xs × Ascending m xs

-- Insertion keeps what holds of all, and the order.
module _ (m : Memory) (q : Ptr) where
  pub insert-All : (P : Ptr → Type 0) (xs : List Ptr) → P q → All P xs → All P (insert m q xs)
  insert-All P [] pq ps = (pq, tt)
  insert-All P (x ∷ xs) pq (px, ps) = elim (Bool-cases (before m q x)) [
    | inl e ↦ rw e (pq, (px, ps))
    | inr e ↦ rw e (px, insert-All P xs pq ps)
  ]

  pub length-insert : (xs : List Ptr) → length (insert m q xs) ≡ suc (length xs)
  length-insert [] = refl
  length-insert (x ∷ xs) = ground (arith, length-insert xs)

  pub insert-Spread : (xs : List Ptr) → All (Apart q) xs → Spread xs → Spread (insert m q xs)
  insert-Spread [] a s = (tt, tt)
  insert-Spread (x ∷ xs) (a, r) (b, s) = elim (Bool-cases (before m q x)) [
    | inl e ↦ rw e ((a, r), (b, s))
    | inr e ↦ rw e (insert-All (Apart x) xs (Apart-sym q x a) b, insert-Spread xs r s)
  ]

  before_trans :
      (x : Ptr) (xs : List Ptr)
      → before m q x ≡ true
      → All (λ y. before m x y ≡ true) xs
      → All (λ y. before m q y ≡ true) xs
  before_trans x [] e a = tt
  before_trans x (y ∷ ys) e (xy, a) = (ground arith, before_trans x ys e a)

  pub insert-Ascending :
      (xs : List Ptr) → All (Apart q) xs → Ascending m xs → Ascending m (insert m q xs)
  insert-Ascending [] a s = (tt, tt)
  insert-Ascending (x ∷ xs) (a, r) (b, s) = elim (Bool-cases (before m q x)) [
    | inl e ↦ rw e ((e, before_trans x xs e b), (b, s))
    | inr e ↦
        rw e (insert-All (λ y. before m x y ≡ true) xs (ground arith) b, insert-Ascending xs r s)
  ]

-- The order depends on the sizes of the blocks only.
module _ (m m' : Memory) where
  before-same :
      (x : Ptr) (xs : List Ptr)
      → m' x ≡ m x
      → All (λ y. m' y ≡ m y) xs
      → All (λ y. before m x y ≡ true) xs
      → All (λ y. before m' x y ≡ true) xs
  before-same x [] e s a = tt
  before-same x (y ∷ ys) e (ey, s) (b, a) = (rw (e, ey) b, before-same x ys e s a)

  pub Ascending-same : (xs : List Ptr) → All (λ x. m' x ≡ m x) xs → Ascending m xs → Ascending m' xs
  Ascending-same [] s a = tt
  Ascending-same (x ∷ xs) (e, s) (b, a) = (before-same x xs e s b, Ascending-same xs s a)

-- A list of blocks in the heap: well linked, apart, and of the size that `size` counts.
pub record IsLinked (h : Heap) (xs : List Ptr) : Type 0 where
  pub chain : Chain h.memory null h.head xs
  pub spread : Spread xs
  pub size_length : h.size ≡ pos (length xs)

-- The list of blocks, in order.
pub record IsList (h : Heap) (xs : List Ptr) : Type 0 where
  pub linked : IsLinked h xs
  pub ascending : Ascending h.memory xs

abbrev pub first : List Ptr → Ptr
first [] = null
first (x ∷ xs) = x

-- The heap with `xs` for its list.
abbrev pub relinked : Heap → Memory → List Ptr → Heap
relinked h m xs = record h { memory = m; head = first xs; size = pos (length xs) }
