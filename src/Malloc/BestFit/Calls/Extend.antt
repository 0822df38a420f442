-- ===== src/Malloc/BestFit/Calls/Extend.antt =====
-- `smalloc` of hw4/malloc_3.cpp where no free block fits: the wilderness grows, or a block is appended.
use operations_systems.Base.{
  ℕ, ◌+◌, ◌%◌, ◌≤◌, ◌<◌, ◌≡◌, refl, sym, ap, ◌∙◌, ◌⊎◌, inl, inr, Bool, true, false, Bool-cases, not,
  ◌&&◌, List, [], ◌∷◌, ◌++◌, arith, length, ◌==◌,
}
use mathlib.Core.Path.{subst}
use operations_systems.Base.Int.{pos, eqb_ℤ}
use operations_systems.Malloc.Words.{failed, Ptr, null, word}
use operations_systems.Malloc.BestFit.Memory.{
  Memory, Heap, Statistics, Run, done, size_of_metadata, tags, update_statistics,
}
use operations_systems.Malloc.BestFit.BlockList.Order.{first}
use operations_systems.Malloc.BestFit.BlockList.Steps.{SameTags}
use operations_systems.Malloc.BestFit.Kernel.{Kernel}
use operations_systems.Malloc.BestFit.Tiles.{Block, block, structs, end, Shape, Holds}
use operations_systems.Malloc.BestFit.Tiles.Layout.{Tiles-end}
use operations_systems.Malloc.BestFit.Tiles.Coalesce.{append-nil, IsCounted-last}
use operations_systems.Malloc.BestFit.Calls.{align_break, place, append_block}
use operations_systems.Malloc.BestFit.Calls.Place.{moved, place-Shape}

SameTags-refl : (m : Memory) (ts : List Ptr) → SameTags m m ts
SameTags-refl m [] = tt
SameTags-refl m (t ∷ ts) = ((refl, refl), SameTags-refl m ts)

-- The outcome of an extension: NULL and the same heap where the kernel does not grant it, or else the
-- payload of the new last block.
abbrev pub Extended : Heap → (granted : Bool) → List Block → (n : ℕ) → Run (Ptr × Heap) → Type 0
Extended h granted pre n r =
    (granted ≡ false) × (r ≡ done (null, h))
    ⊎ ((h' : Heap) × (zs : List Ptr) × (granted ≡ true)
        × (r ≡ done (end h.sbrk_start pre + size_of_metadata, h'))
        × Holds h' (pre ++ (block n false ∷ [])) zs)

module _ (os : Kernel) (fuel : ℕ) (h : Heap) (n : ℕ) where
  align_break-aligned : h.brk % 8 ≡ 0 → align_break os h ≡ (h, true)
  unfolding align_break
  align_break-aligned a = rw skipped refl
    where
      skipped : (eqb_ℤ h.size (pos 0) && not (h.brk % 8 == 0)) ≡ false
      skipped = ground (arith, a)

  append_block-none :
      h.brk % 8 ≡ 0 → os.grants h.brk (n + tags) ≡ false → append_block os fuel h n ≡ done (null, h)
  unfolding append_block
  append_block-none a g = rw (align_break-aligned a, g) refl

  -- The heap where the new block is placed.
  abbrev room : (p e : Ptr) → Heap
  room p e = record h {
    wilderness = p;
    brk = e;
    statistics = update_statistics h.statistics 1 0 n 0 tags;
  }

  append_block-place :
      h.brk % 8 ≡ 0
      → h.brk + n + tags < word
      → os.grants h.brk (n + tags) ≡ true
      → append_block os fuel h n ≡ place fuel (room h.brk (h.brk + (n + tags))) n h.brk
  unfolding append_block
  append_block-place a l g = rw (align_break-aligned a, g, not_failed) refl
    where
      not_failed : (h.brk == failed) ≡ false
      not_failed = ground arith

-- On a heap of blocks whose break is a multiple of 8 and stays below 2^64, with fuel for every block:
-- where the kernel grants the new break, `smalloc`'s last resort appends a block of `n` bytes in use and
-- returns its payload, and list, wilderness, footers and counters follow; or else it returns NULL and the
-- heap stays as it was.
pub append_block-Extended :
    (os : Kernel) (fuel : ℕ) (h : Heap) (bs : List Block) (xs : List Ptr) (n : ℕ)
    → Holds h bs xs
    → h.brk % 8 ≡ 0
    → h.brk + n + tags < word
    → length xs ≤ fuel
    → Extended h (os.grants h.brk (n + tags)) bs n (append_block os fuel h n)
append_block-Extended os fuel h bs xs n s a l enough =
    elim (Bool-cases (os.grants h.brk (n + tags))) [
      | inl g ↦ inr (granted g)
      | inr g ↦ inl (g, append_block-none os fuel h n a g)
    ]
  where
    end_brk : end h.sbrk_start bs ≡ h.brk
    end_brk = Tiles-end h.memory h.sbrk_start h.brk bs s.shape.tiles

    whole : Shape h (bs ++ []) xs
    whole = subst (λ cs. Shape h cs xs) (sym (append-nil bs)) s.shape

    st : Statistics
    st = update_statistics h.statistics 1 0 n 0 tags

    granted :
        os.grants h.brk (n + tags) ≡ true
        → (h' : Heap) × (zs : List Ptr) × (os.grants h.brk (n + tags) ≡ true)
          × (append_block os fuel h n ≡ done (end h.sbrk_start bs + size_of_metadata, h'))
          × Holds h' (bs ++ (block n false ∷ [])) zs
    granted g =
        let (m', zs, run, shape) =
          place-Shape h bs [] xs whole n fuel h.memory h.head h.size st xs
            (record {
              linked = record {
                chain = s.shape.listed.linked.chain;
                spread = s.shape.listed.linked.spread;
                size_length = s.shape.listed.linked.size_length;
              };
              ascending = s.shape.listed.ascending;
            })
            s.shape.members (SameTags-refl h.memory (structs h.sbrk_start bs))
            (omega (arith, end_brk)) enough in
        (
          moved h bs [] xs whole n m' (first zs) (pos (length zs)) st,
          zs,
          g,
          append_block-place os fuel h n a l g
              ∙ ap (λ (p : Ptr). place fuel (room os fuel h n p (p + (n + tags))) n p) (sym end_brk)
              ∙ ap
                  (λ (e : Ptr).
                    place fuel (room os fuel h n (end h.sbrk_start bs) e) n (end h.sbrk_start bs))
                  (omega arith)
              ∙ run,
          record { shape = shape; counted = IsCounted-last h.statistics bs n s.counted },
        )
