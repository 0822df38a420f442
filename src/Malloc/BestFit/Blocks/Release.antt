-- ===== src/Malloc/BestFit/Blocks/Release.antt =====
-- `sfree` of hw4/malloc_3.cpp against the freeing of a block in a row.
use operations_systems.Base.{
  true, ℕ, ◌+◌, ◌-◌, ◌≤◌, ◌<◌, ◌≡◌, ap, ◌∙◌, false, List, ◌∷◌, ◌++◌, arith, length, ◌==◌, ltb,
  lt→ltb,
}
use operations_systems.Malloc.Words.{Ptr, null}
use operations_systems.Malloc.BestFit.Memory.{Heap, done, size_of_metadata}
use operations_systems.Malloc.BestFit.Tiles.{Block, block, end, Holds}
use operations_systems.Malloc.BestFit.Tiles.Layout.{Tiles-split}
use operations_systems.Malloc.BestFit.Tiles.Coalesce.{coalesce}
use operations_systems.Malloc.BestFit.Blocks.{mmap_threshold, mark_free, sfree}
use operations_systems.Malloc.BestFit.Blocks.Coalesced.{merge_blocks-coalesce}
use operations_systems.Malloc.BestFit.Blocks.Mark.{flagged-Shape}

-- On a heap of blocks, `sfree` of the payload of a block in use below the threshold of `mmap` ends within
-- fuel for every block. The heap then holds the same row with the block free and one with its free
-- neighbours; list, wilderness, footers and counters follow.
pub sfree-coalesce :
    (fuel : ℕ) (h : Heap) (pre post : List Block) (n : ℕ) (xs : List Ptr)
    → Holds h (pre ++ (block n false ∷ post)) xs
    → n < mmap_threshold
    → length xs ≤ fuel
    → (h' : Heap) × (zs : List Ptr) × (sfree fuel h (end h.sbrk_start pre + size_of_metadata)
        ≡ done h')
      × Holds h' (coalesce pre n post) zs
unfolding sfree
sfree-coalesce fuel h pre post n xs s small enough =
    let p = end h.sbrk_start pre in
    let tile =
      (Tiles-split h.memory h.brk (block n false ∷ post) h.sbrk_start pre s.shape.tiles).1.0 in
    let marked = record h { memory = mark_free h.memory p } in
    let (h', zs, run, holds) =
      merge_blocks-coalesce fuel marked n xs enough pre post
        (flagged-Shape h pre post n false true xs s.shape) s.counted in
    (
      h',
      zs,
      rw
          (
            place,
            not_null,
            tile.header_free,
            ap (λ (k : ℕ). ltb k mmap_threshold) tile.header_size ∙ lt→ltb n mmap_threshold small,
          )
          run,
      holds,
    )
  where
    place : end h.sbrk_start pre + size_of_metadata - size_of_metadata ≡ end h.sbrk_start pre
    place = omega arith

    not_null : (end h.sbrk_start pre + size_of_metadata == null) ≡ false
    not_null = ground arith
