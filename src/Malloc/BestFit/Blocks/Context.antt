-- ===== src/Malloc/BestFit/Blocks/Context.antt =====
-- List operations of hw4/malloc_3.cpp on a heap of blocks.
use operations_systems.Base.{ℕ, ◌+◌, ◌≤◌, ◌≡◌, ◌∙◌, true, List, ◌∷◌, arith, All, length}
use mathlib.Core.List.{Permᴰ}
use mathlib.Core.List.Permᴰ
use operations_systems.Malloc.Words.{Ptr}
use operations_systems.Malloc.BestFit.Memory.{Memory, Heap, set_size, done}
use operations_systems.Malloc.BestFit.BlockList.{remove_metadata}
use operations_systems.Malloc.BestFit.BlockList.Chain.{Spread, NoLink, Spread-NoLink}
use operations_systems.Malloc.BestFit.BlockList.Order.{IsLinked, relinked}
use operations_systems.Malloc.BestFit.BlockList.Erase.{has, erase, erase-All}
use operations_systems.Malloc.BestFit.BlockList.Members.{
  has-perm, All-perm, All-member, length-permᴰ,
}
use operations_systems.Malloc.BestFit.BlockList.Steps.{
  SameTags, SameTags-trans, Within, remove_step,
}
use operations_systems.Malloc.BestFit.Tiles.{Block, structs, Shape}
use operations_systems.Malloc.BestFit.Tiles.Layout.{structs-Spread, headers-Within}
use operations_systems.Malloc.BestFit.Blocks.Reinsert.{resized-IsLinked}

-- What a heap of blocks gives its list operations.
module _ (h : Heap) (bs : List Block) (xs : List Ptr) (shape : Shape h bs xs) where
  abbrev ts : List Ptr
  ts = structs h.sbrk_start bs

  pub spread : Spread ts
  spread = structs-Spread h.sbrk_start bs

  pub within : Within ts xs
  within =
      All-perm (λ x. has x ts ≡ true) (Permᴰ.symm shape.members) (headers-Within h.sbrk_start bs)

  -- A header that grew leaves the list linked.
  pub grown-IsLinked :
      (p v : ℕ) → has p ts ≡ true → IsLinked (record h { memory = set_size h.memory p v }) xs
  grown-IsLinked p v i =
      resized-IsLinked h p v xs ts shape.listed.linked
        (All-member (λ x. All (NoLink (x + 0)) ts) p ts (Spread-NoLink 0 ts (omega arith) spread) i)
        within

  -- Two blocks leave the list.
  pub remove_two :
      (fuel : ℕ) (g : Heap) (a b : Ptr) (rest : List Ptr)
      → IsLinked g xs
      → Permᴰ xs (a ∷ (b ∷ rest))
      → length xs ≤ fuel
      → (m1 m2 : Memory) × (remove_metadata fuel g a ≡ done (relinked g m1 (erase a xs)))
        × (remove_metadata fuel (relinked g m1 (erase a xs)) b
            ≡ done (relinked g m2 (erase b (erase a xs))))
        × IsLinked (relinked g m2 (erase b (erase a xs))) (erase b (erase a xs))
        × Permᴰ (erase b (erase a xs)) rest
        × SameTags g.memory m2 ts
  remove_two fuel g a b rest is p l =
      let (m1, run1, linked1, perm1, same1) =
        remove_step ts spread fuel g a xs (b ∷ rest) is p within l in
      let (m2, run2, linked2, perm2, same2) =
        remove_step ts spread fuel (relinked g m1 (erase a xs)) b (erase a xs) rest linked1 perm1
          (erase-All a (λ x. has x ts ≡ true) xs within)
          (omega (arith, length-permᴰ perm1, length-permᴰ p)) in
      (m1, m2, run1, run2, linked2, perm2, SameTags-trans g.memory m1 m2 ts same1 same2)

  pub erased_Within : (x : Ptr) (ys : List Ptr) → Within ts ys → Within ts (erase x ys)
  erased_Within x ys w = erase-All x (λ z. has z ts ≡ true) ys w

  pub listed_struct : (x : Ptr) (rest : List Ptr) → Permᴰ xs (x ∷ rest) → has x ts ≡ true
  listed_struct x rest perm =
      All-member (λ z. has z ts ≡ true) x xs within (has-perm x perm ∙ ground arith)
