-- ===== src/Malloc/BestFit/BlockList/Links.antt =====
-- What the stores of `BlockList` in hw4/malloc_3.cpp change, link by link.
use operations_systems.Base.{
  ◌<◌, ◌≡◌, ◌≢◌, true, false, [], ◌∷◌, arith, if◌then◌else◌, ◌==◌, not, leb,
}
use operations_systems.Malloc.Words.{Ptr, null}
use operations_systems.Malloc.BestFit.Memory.{Memory, next_at, prev_at, size_at}
use operations_systems.Malloc.BestFit.BlockList.{
  before, link_last, link_behind, link_head, link_second, goes_on,
}
use operations_systems.Malloc.BestFit.BlockList.Chain.{Apart, SameBut}

pub ne_null : (p : Ptr) → 0 < p → (p == null) ≡ false
ne_null p l = ground arith

pub le_of_before :
    (m : Memory) (p q : Ptr) → before m p q ≡ true → leb (size_at m p) (size_at m q) ≡ true
le_of_before m p q e = ground arith

-- What linking `q` in behind `p` and in front of `x` changes.
pub record Spliced (m m' : Memory) (p q x : Ptr) : Type 0 where
  pub next_p : next_at m' p ≡ q
  pub prev_p : prev_at m' p ≡ prev_at m p
  pub next_q : next_at m' q ≡ x
  pub prev_q : prev_at m' q ≡ p
  pub next_x : next_at m' x ≡ next_at m x
  pub prev_x : prev_at m' x ≡ q
  pub same : SameBut (q ∷ p ∷ x ∷ []) m m'

module _ (m : Memory) (p q x : Ptr) (pq : Apart p q) (px : Apart p x) (qx : Apart q x) where
  pub link_behind-Spliced : next_at m p ≡ x → Spliced m (link_behind m p q) p q x
  link_behind-Spliced e = record {
    next_p = ground arith;
    prev_p = ground arith;
    next_q = ground arith;
    prev_q = ground arith;
    next_x = ground arith;
    prev_x = ground arith;
    same = λ a o. ground arith;
  }

  -- Where `q` does not come before `x`, the loop goes on.
  pub goes_on_lem :
      {A : Type 0} (head : Ptr) (first second rest : A)
      → next_at m head ≢ null
      → before m q x ≡ false
      → (if leb (size_at m q) (size_at m x)
          then (if before m q x then first else if not (goes_on m head q x) then second else rest)
          else rest)
        ≡ rest
  goes_on_lem head first second rest ne e = ground arith

module _ (m : Memory) (p q : Ptr) (pq : Apart p q) where
  pub link_last_lem :
      (next_at (link_last m p q) p ≡ q)
      × (prev_at (link_last m p q) p ≡ prev_at m p)
      × (next_at (link_last m p q) q ≡ null)
      × (prev_at (link_last m p q) q ≡ p)
      × SameBut (q ∷ p ∷ []) m (link_last m p q)
  link_last_lem = (ground arith, ground arith, ground arith, ground arith, λ a o. ground arith)

-- `addMetadata` in front of the head.
module _ (m : Memory) (q x : Ptr) (qx : Apart q x) where
  pub link_head_lem :
      (next_at (link_head m x q) q ≡ x)
      × (prev_at (link_head m x q) q ≡ prev_at m x)
      × (next_at (link_head m x q) x ≡ next_at m x)
      × (prev_at (link_head m x q) x ≡ q)
      × SameBut (q ∷ (x ∷ [])) m (link_head m x q)
  link_head_lem = (ground arith, ground arith, ground arith, ground arith, λ a o. ground arith)

  pub link_second_last :
      next_at m x ≡ null
      → (next_at (link_second m x q) x ≡ q)
        × (prev_at (link_second m x q) x ≡ prev_at m x)
        × (next_at (link_second m x q) q ≡ null)
        × (prev_at (link_second m x q) q ≡ x)
        × SameBut (q ∷ (x ∷ [])) m (link_second m x q)
  link_second_last e = (ground arith, ground arith, ground arith, ground arith, λ a o. ground arith)

pub link_second-Spliced :
    (m : Memory) (p q x : Ptr)
    → Apart p q
    → Apart p x
    → Apart q x
    → 0 < x
    → next_at m p ≡ x
    → Spliced m (link_second m p q) p q x
link_second-Spliced m p q x pq px qx l e = record {
  next_p = ground arith;
  prev_p = ground arith;
  next_q = ground arith;
  prev_q = ground arith;
  next_x = ground arith;
  prev_x = ground arith;
  same = λ a o. ground arith;
}

pub second_before :
    (m : Memory) (q x y : Ptr)
    → Apart q y
    → 0 < y
    → before m q x ≡ false
    → leb (size_at m q) (size_at m x) ≡ true
    → before m x y ≡ true
    → next_at m x ≡ y
    → goes_on m x q (next_at m x) ≡ false
    → before m q y ≡ true
second_before m q x y qy l e le b n g = ground arith
