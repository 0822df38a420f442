-- ===== src/Malloc/BestFit/Blocks/Coalesced.antt =====
-- `mergeBlocks` of hw4/malloc_3.cpp against the freeing of a block in a row.
use operations_systems.Base.{
  ℕ, ◌+◌, ◌*◌, ◌≤◌, ◌≡◌, refl, sym, ap, ◌∙◌, ◌⊎◌, inl, inr, Bool, true, false, List, [], ◌∷◌, ◌++◌,
  arith, length, if◌then◌else◌,
}
use mathlib.Core.Path.{subst}
use operations_systems.Malloc.Words.{Ptr, null}
use operations_systems.Malloc.BestFit.Memory.{Heap, done, tags, size_of_metadata}
use operations_systems.Malloc.BestFit.Tiles.{
  Block, block, footer, behind, Tiles, end, Shape, Holds, IsCounted,
}
use operations_systems.Malloc.BestFit.Tiles.Layout.{Tiles-split, Tiles-end, le-end}
use operations_systems.Malloc.BestFit.Tiles.Coalesce.{
  with_next, join, coalesce, with_prev-snoc, append-snoc, end-snoc, join-used, IsCounted-prev,
  IsCounted-both,
}
use operations_systems.Malloc.BestFit.Blocks.{footer_before, merge_both, merge_prev, merge_blocks}
use operations_systems.Malloc.BestFit.Blocks.Merge.{merge_prev-Shape}
use operations_systems.Malloc.BestFit.Blocks.MergeBoth.{merged_three, merge_both-Shape}
use operations_systems.Malloc.BestFit.Blocks.Neighbours.{
  merge_blocks-run, behind_nil, behind_cons, before_nil, before_snoc, behind_used, Merged,
}

-- A row is empty or has a last block.
last_block :
    (bs : List Block) → (bs ≡ []) ⊎ ((cs : List Block) × (a : Block) × (bs ≡ cs ++ (a ∷ [])))
last_block [] = inl refl
last_block (b ∷ bs) = elim (last_block bs) [
  | inl e ↦ inr ([], b, ap (λ (cs : List Block). b ∷ cs) e)
  | inr (cs, a, e) ↦ inr (b ∷ cs, a, ap (λ (ds : List Block). b ∷ ds) e)
]

module _ (fuel : ℕ) (h : Heap) (n : ℕ) (xs : List Ptr) (enough : length xs ≤ fuel) where
  -- A free block of `j` bytes before.
  behind_free :
      (pre post : List Block) (j : ℕ)
      → Shape h (pre ++ (block j true ∷ (block n true ∷ post))) xs
      → IsCounted h.statistics (pre ++ (block j true ∷ (block n false ∷ post)))
      → Merged fuel h
          (behind (end h.sbrk_start pre) j)
          (pre ++ join (block j true) (with_next n post))
  behind_free pre [] j s c =
      let tiles =
        (Tiles-split h.memory h.brk (block j true ∷ (block n true ∷ [])) h.sbrk_start pre
          s.tiles).1 in
      let (at, free) =
        before_snoc h (block j true) (end h.sbrk_start pre) s.start_pos (le-end h.sbrk_start pre)
          tiles.0 in
      let (m', zs, run, shape) =
        merge_prev-Shape h pre [] (block j true) (block n true) xs s fuel enough in
      (
        _,
        zs,
        merge_blocks-run fuel h _ (footer (end h.sbrk_start pre) j) null true false at
              (behind_nil h (behind (end h.sbrk_start pre) j) n true tiles.1.0 tiles.1.1) free refl
            ∙ run,
        record { shape = shape; counted = IsCounted-prev h.statistics pre [] n j c },
      )
  behind_free pre (d ∷ cs) j s c = flagged d.size d.is_free s c
    where
      flagged :
          (k : ℕ) (b : Bool)
          → Shape h (pre ++ (block j true ∷ (block n true ∷ (block k b ∷ cs)))) xs
          → IsCounted h.statistics (pre ++ (block j true ∷ (block n false ∷ (block k b ∷ cs))))
          → Merged fuel h
              (behind (end h.sbrk_start pre) j)
              (pre ++ join (block j true) (with_next n (block k b ∷ cs)))
      flagged k b s c =
          let p = behind (end h.sbrk_start pre) j in
          let tiles =
            (Tiles-split h.memory h.brk (block j true ∷ (block n true ∷ (block k b ∷ cs)))
              h.sbrk_start pre s.tiles).1 in
          let before =
            before_snoc h (block j true) (end h.sbrk_start pre) s.start_pos
              (le-end h.sbrk_start pre) tiles.0 in
          let after =
            behind_cons h p n true tiles.1.0 (block k b) cs tiles.1.1.0
              (Tiles-end h.memory (behind p n) h.brk (block k b ∷ cs) tiles.1.1) in
          decided b s c (λ h' z.
            merge_blocks-run fuel h p (footer (end h.sbrk_start pre) j) (behind p n) true b before.0
              after.0 before.1 after.1
            ∙ z)
        where
          width : j + n + k + 4 * size_of_metadata ≡ j + (n + k + tags) + tags
          width = omega arith

          decided :
              (b : Bool)
              → Shape h (pre ++ (block j true ∷ (block n true ∷ (block k b ∷ cs)))) xs
              → IsCounted h.statistics (pre ++ (block j true ∷ (block n false ∷ (block k b ∷ cs))))
              → ((h' : Heap)
                  → (if b
                      then merge_both fuel h
                          (footer (end h.sbrk_start pre) j)
                          (behind (end h.sbrk_start pre) j)
                          (behind (behind (end h.sbrk_start pre) j) n)
                      else merge_prev fuel h
                          (footer (end h.sbrk_start pre) j)
                          (behind (end h.sbrk_start pre) j))
                    ≡ done h'
                  → merge_blocks fuel h (behind (end h.sbrk_start pre) j) ≡ done h')
              → Merged fuel h
                  (behind (end h.sbrk_start pre) j)
                  (pre ++ join (block j true) (with_next n (block k b ∷ cs)))
          decided true s c run =
              let (m', zs, r, shape) =
                merge_both-Shape h pre cs (block j true) (block n true) (block k true) xs s fuel
                  enough in
              let h' =
                merged_three h pre cs (block j true) (block n true) (block k true) xs s m' zs in
              (
                h',
                zs,
                run h' r,
                subst (λ (z : ℕ). Holds h' (pre ++ (block z true ∷ cs)) zs) width
                    (record {
                      shape = shape;
                      counted = IsCounted-both h.statistics pre cs n j k c;
                    }),
              )
          decided false s c run =
              let (m', zs, r, shape) =
                merge_prev-Shape h pre (block k false ∷ cs) (block j true) (block n true) xs s fuel
                  enough in
              (
                _,
                zs,
                run _ r,
                record {
                  shape = shape;
                  counted = IsCounted-prev h.statistics pre (block k false ∷ cs) n j c;
                },
              )

  -- The block between `pre` and `post`, marked free already.
  pub merge_blocks-coalesce :
      (pre post : List Block)
      → Shape h (pre ++ (block n true ∷ post)) xs
      → IsCounted h.statistics (pre ++ (block n false ∷ post))
      → Merged fuel h (end h.sbrk_start pre) (coalesce pre n post)
  merge_blocks-coalesce pre post s c = elim (last_block pre) [
    | inl e ↦ subst Goal (sym e) first_block (s, c)
    | inr (cs, a, e) ↦ subst Goal (sym e) (later_block cs a.size a.is_free) (s, c)
  ]
    where
      Premise : List Block → Type 0
      Premise pre =
          Shape h (pre ++ (block n true ∷ post)) xs
          × IsCounted h.statistics (pre ++ (block n false ∷ post))

      Goal : List Block → Type 0
      Goal pre = Premise pre → Merged fuel h (end h.sbrk_start pre) (coalesce pre n post)

      first_block : Goal []
      first_block (s, c) = behind_used fuel h n xs enough [] post null s c (before_nil h) refl

      later_block : (cs : List Block) (j : ℕ) (b : Bool) → Goal (cs ++ (block j b ∷ []))
      later_block cs j true (s, c) =
          rw
            (
              end-snoc h.sbrk_start cs (block j true),
              with_prev-snoc cs (block j true) (with_next n post),
            )
            (behind_free cs post j
              (subst (λ bs. Shape h bs xs) (append-snoc cs (block j true) (block n true ∷ post)) s)
              (subst (λ bs. IsCounted h.statistics bs)
                (append-snoc cs (block j true) (block n false ∷ post)) c))
      later_block cs j false (s, c) =
          let before =
            before_snoc h (block j false) (end h.sbrk_start cs) s.start_pos (le-end h.sbrk_start cs)
              (Tiles-split h.memory h.brk (block j false ∷ (block n true ∷ post)) h.sbrk_start cs (
                subst (λ bs. Tiles h.memory h.sbrk_start bs h.brk)
                  (append-snoc cs (block j false) (block n true ∷ post)) s.tiles)).1.0 in
          subst (λ bs. Merged fuel h (end h.sbrk_start (cs ++ (block j false ∷ []))) bs)
            (append-snoc cs (block j false) (with_next n post)
              ∙ sym (
                  with_prev-snoc cs (block j false) (with_next n post)
                  ∙ ap (λ bs. cs ++ bs) (join-used (block j false) n post refl)))
            (behind_used fuel h n xs enough (cs ++ (block j false ∷ [])) post
              (footer (end h.sbrk_start cs) j) s c
              (ap (footer_before h) (end-snoc h.sbrk_start cs (block j false)) ∙ before.0) before.1)
