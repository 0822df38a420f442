-- ===== src/Malloc/BestFit/Blocks/Neighbours.antt =====
-- `mergeBlocks` of hw4/malloc_3.cpp against the freeing of a block in a row.
use operations_systems.Base.{
  ℕ, ◌≤◌, ◌<◌, ◌≡◌, refl, ap, ◌∙◌, Bool, true, false, List, [], ◌∷◌, ◌++◌, arith, length,
  if◌then◌else◌,
}
use operations_systems.Malloc.Words.{Ptr, null}
use operations_systems.Malloc.BestFit.Memory.{Heap, done, update_statistics, size_at}
use operations_systems.Malloc.BestFit.Tiles.{
  Block, block, footer, behind, Tile, end, Shape, Holds, IsCounted,
}
use operations_systems.Malloc.BestFit.Tiles.Layout.{Tiles-split, Tiles-end, le-end}
use operations_systems.Malloc.BestFit.Tiles.Coalesce.{with_next, IsCounted-free, IsCounted-next}
use operations_systems.Malloc.BestFit.Blocks.{
  footer_before, block_behind, is_free_if, merge_both, merge_next, merge_prev, merge_blocks,
}
use operations_systems.Malloc.BestFit.Blocks.Merge.{merge_next-Shape}

-- What `mergeBlocks` does, by the flags of the neighbours.
pub merge_blocks-run :
    (fuel : ℕ) (h : Heap) (p before following : Ptr) (prev_free next_free : Bool)
    → footer_before h p ≡ before
    → block_behind h p ≡ following
    → is_free_if h.memory before ≡ prev_free
    → is_free_if h.memory following ≡ next_free
    → merge_blocks fuel h p ≡ (
        if next_free
        then (if prev_free
            then merge_both fuel h before p following
            else merge_next fuel h p following)
        else if prev_free
        then merge_prev fuel h before p
        else done
            (record h { statistics = update_statistics h.statistics 0 1 0 (size_at h.memory p) 0 }))
unfolding merge_blocks
merge_blocks-run fuel h p before following pf nf e f g k = rw (e, f, g, k) refl

-- The block behind, by the row.
module _ (h : Heap) (p n : ℕ) (f : Bool) (tile : Tile h.memory p (block n f)) where
  pub behind_nil : behind p n ≡ h.brk → block_behind h p ≡ null
  behind_nil e = ground (arith, tile.header_size, e)

  pub behind_cons :
      (c : Block) (cs : List Block)
      → Tile h.memory (behind p n) c
      → end (behind p n) (c ∷ cs) ≡ h.brk
      → (block_behind h p ≡ behind p n) × (is_free_if h.memory (behind p n) ≡ c.is_free)
  behind_cons c cs t e = (
    ground (arith, tile.header_size, e, le-end (behind (behind p n) c.size) cs),
    ground (arith, t.header_free),
  )

-- The block before, by the row.
module _ (h : Heap) where
  pub before_nil : footer_before h h.sbrk_start ≡ null
  before_nil = ground arith

  pub before_snoc :
      (a : Block) (s : Ptr)
      → 0 < h.sbrk_start
      → h.sbrk_start ≤ s
      → Tile h.memory s a
      → (footer_before h (behind s a.size) ≡ footer s a.size)
        × (is_free_if h.memory (footer s a.size) ≡ a.is_free)
  before_snoc a s l k t = (ground arith, ground (arith, t.footer_free))

-- `mergeBlocks` ends with the row `bs`.
abbrev pub Merged : ℕ → Heap → Ptr → List Block → Type 0
Merged fuel h p bs =
    (h' : Heap) × (zs : List Ptr) × (merge_blocks fuel h p ≡ done h') × Holds h' bs zs

module _ (fuel : ℕ) (h : Heap) (n : ℕ) (xs : List Ptr) (enough : length xs ≤ fuel) where
  alone :
      (pre post : List Block) (before following : Ptr)
      → Shape h (pre ++ (block n true ∷ post)) xs
      → IsCounted h.statistics (pre ++ (block n false ∷ post))
      → footer_before h (end h.sbrk_start pre) ≡ before
      → block_behind h (end h.sbrk_start pre) ≡ following
      → is_free_if h.memory before ≡ false
      → is_free_if h.memory following ≡ false
      → Merged fuel h (end h.sbrk_start pre) (pre ++ (block n true ∷ post))
  alone pre post before following s c e f g k = (
    record h { statistics = update_statistics h.statistics 0 1 0 n 0 },
    xs,
    merge_blocks-run fuel h (end h.sbrk_start pre) before following false false e f g k
        ∙ ap (λ (z : ℕ). done (record h { statistics = update_statistics h.statistics 0 1 0 z 0 }))
            (Tiles-split h.memory h.brk (block n true ∷ post) h.sbrk_start pre
              s.tiles).1.0.header_size,
    record {
      shape = record {
        start_pos = s.start_pos;
        small = s.small;
        tiles = s.tiles;
        listed = record {
          linked = record {
            chain = s.listed.linked.chain;
            spread = s.listed.linked.spread;
            size_length = s.listed.linked.size_length;
          };
          ascending = s.listed.ascending;
        };
        members = s.members;
        wilderness_last = s.wilderness_last;
      };
      counted = IsCounted-free h.statistics pre post n c;
    },
  )

  -- No free block before.
  pub behind_used :
      (pre post : List Block) (before : Ptr)
      → Shape h (pre ++ (block n true ∷ post)) xs
      → IsCounted h.statistics (pre ++ (block n false ∷ post))
      → footer_before h (end h.sbrk_start pre) ≡ before
      → is_free_if h.memory before ≡ false
      → Merged fuel h (end h.sbrk_start pre) (pre ++ with_next n post)
  behind_used pre [] before s c e g =
      let tiles = Tiles-split h.memory h.brk (block n true ∷ []) h.sbrk_start pre s.tiles in
      alone pre [] before null s c e
        (behind_nil h (end h.sbrk_start pre) n true tiles.1.0 tiles.1.1) g refl
  behind_used pre (d ∷ cs) before s c e g = flagged d.size d.is_free s c
    where
      flagged :
          (k : ℕ) (b : Bool)
          → Shape h (pre ++ (block n true ∷ (block k b ∷ cs))) xs
          → IsCounted h.statistics (pre ++ (block n false ∷ (block k b ∷ cs)))
          → Merged fuel h (end h.sbrk_start pre) (pre ++ with_next n (block k b ∷ cs))
      flagged k true s c =
          let tiles =
            (Tiles-split h.memory h.brk (block n true ∷ (block k true ∷ cs)) h.sbrk_start pre
              s.tiles).1 in
          let (at, free) =
            behind_cons h (end h.sbrk_start pre) n true tiles.0 (block k true) cs tiles.1.0 (
              Tiles-end h.memory (behind (end h.sbrk_start pre) n) h.brk (block k true ∷ cs)
                tiles.1) in
          let (m', zs, run, shape) =
            merge_next-Shape h pre cs (block n true) (block k true) xs s fuel enough in
          (
            _,
            zs,
            merge_blocks-run fuel h (end h.sbrk_start pre) before (behind (end h.sbrk_start pre) n)
                  false true e at g free
                ∙ run,
            record { shape = shape; counted = IsCounted-next h.statistics pre cs n k c },
          )
      flagged k false s c =
          let tiles =
            (Tiles-split h.memory h.brk (block n true ∷ (block k false ∷ cs)) h.sbrk_start pre
              s.tiles).1 in
          let (at, free) =
            behind_cons h (end h.sbrk_start pre) n true tiles.0 (block k false) cs tiles.1.0 (
              Tiles-end h.memory (behind (end h.sbrk_start pre) n) h.brk (block k false ∷ cs)
                tiles.1) in
          alone pre (block k false ∷ cs) before (behind (end h.sbrk_start pre) n) s c e at g free
