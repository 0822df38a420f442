-- ===== src/Malloc/BestFit/Blocks/MergeBoth.antt =====
-- `mergeBlocks` of hw4/malloc_3.cpp on a heap of blocks: three blocks become one.
use operations_systems.Base.{
  ℕ, ◌-◌, ◌+◌, ◌*◌, ◌%◌, ◌≤◌, ◌<◌, ◌≡◌, refl, ap, ◌∙◌, inr, Bool, true, List, [], ◌∷◌, ◌++◌, arith,
  length, if◌then◌else◌, ◌==◌,
}
use mathlib.Core.List.{Permᴰ}
use mathlib.Core.List.Permᴰ
use mathlib.Core.Path.{subst}
use operations_systems.Base.Int.{pos}
use operations_systems.Malloc.Words.{Ptr, word, neg_word}
use operations_systems.Malloc.BestFit.Memory.{
  size_of_metadata, update_statistics, Memory, Heap, Statistics, set_size, copy_footer, done,
}
use operations_systems.Malloc.BestFit.BlockList.Order.{first, relinked}
use operations_systems.Malloc.BestFit.BlockList.Erase.{has, erase, erase-Ascending}
use operations_systems.Malloc.BestFit.BlockList.Members.{All-member, length-permᴰ}
use operations_systems.Malloc.BestFit.BlockList.Steps.{SameTag, SameTags-trans, remove_step}
use operations_systems.Malloc.BestFit.Tiles.{
  Block, block, footer, behind, Tile, Tiles, headers, structs, end, last_header, Shape,
}
use operations_systems.Malloc.BestFit.Tiles.Layout.{headers-append, Tiles-split, Tiles-end, le-end}
use operations_systems.Malloc.BestFit.Tiles.Replace.{
  replaced, outer_headers, last_header-append, last_header-above,
}
use operations_systems.Malloc.BestFit.Blocks.Context.{
  spread, within, grown-IsLinked, remove_two, erased_Within, listed_struct,
}
use operations_systems.Malloc.BestFit.Blocks.{merge_both}
use operations_systems.Malloc.BestFit.Blocks.Reinsert.{copied-SameTag, Reinserted, reinsert}

-- The blocks `a`, `b` and `c` between others.
module _ (h : Heap) (pre post : List Block) (a b c : Block) (xs : List Ptr)
    (shape : Shape h (pre ++ (a ∷ (b ∷ (c ∷ post)))) xs) where
  abbrev p : Ptr
  p = end h.sbrk_start pre

  abbrev q : Ptr
  q = behind p a.size

  abbrev r : Ptr
  r = behind q b.size

  abbrev e : Ptr
  e = behind r c.size

  abbrev v : ℕ
  v = a.size + b.size + c.size + 4 * size_of_metadata

  abbrev rest : List Ptr
  rest = headers h.sbrk_start pre ++ headers e post

  abbrev all_blocks : List Block
  all_blocks = pre ++ (a ∷ (b ∷ (c ∷ post)))

  abbrev structs_all : List Ptr
  structs_all = structs h.sbrk_start all_blocks

  perm_pqr : Permᴰ xs (p ∷ (q ∷ (r ∷ rest)))
  perm_pqr = Permᴰ.trans shape.members (
      rw (headers-append h.sbrk_start pre (a ∷ (b ∷ (c ∷ post)))) (
        Permᴰ.trans (Permᴰ.middle p (headers h.sbrk_start pre) (q ∷ (r ∷ headers e post))) (
          Permᴰ.cons refl (
            Permᴰ.trans (Permᴰ.middle q (headers h.sbrk_start pre) (r ∷ headers e post))
              (Permᴰ.cons refl (Permᴰ.middle r (headers h.sbrk_start pre) (headers e post)))))))

  perm_rpq : Permᴰ xs (r ∷ (p ∷ (q ∷ rest)))
  perm_rpq =
      Permᴰ.trans perm_pqr
        (Permᴰ.trans (Permᴰ.cons refl (Permᴰ.swap refl refl)) (Permᴰ.swap refl refl))

  located :
      Tile h.memory p a × (Tile h.memory q b × (Tile h.memory r c × Tiles h.memory e post h.brk))
  located = (Tiles-split h.memory h.brk (a ∷ (b ∷ (c ∷ post))) h.sbrk_start pre shape.tiles).1

  bound : e < word
  bound = omega (arith, shape.small, Tiles-end h.memory e h.brk post located.1.1.1, le-end e post)

  new_size : (a.size + (c.size + b.size + 4 * size_of_metadata)) % word ≡ v
  new_size = omega (arith, bound)

  p_struct : has p structs_all ≡ true
  p_struct = listed_struct h _ xs shape p _ perm_pqr

  q_struct : has q structs_all ≡ true
  q_struct = listed_struct h _ xs shape q _ (Permᴰ.trans perm_pqr (Permᴰ.swap refl refl))

  abbrev Back : ℕ → Heap → Type 0
  Back fuel g =
      Reinserted h.memory p v structs_all rest (spread h _ xs shape)
        (omega (arith, shape.start_pos, le-end h.sbrk_start pre)) p_struct
        (outer_headers h.sbrk_start e p pre post (omega arith) (omega arith))
        (
          inr (omega arith),
          outer_headers h.sbrk_start e (footer p v) pre post (omega arith) (omega arith),
        )
        fuel g

  wilderness_moves :
      (ds : List Block)
      → h.wilderness ≡ last_header h.sbrk_start (pre ++ (a ∷ (b ∷ (c ∷ ds))))
      → (if r == h.wilderness then p else h.wilderness) ≡ last_header p (block v a.is_free ∷ ds)
  wilderness_moves [] w = ground (arith, w ∙ last_header-append h.sbrk_start pre a (b ∷ (c ∷ [])))
  wilderness_moves (d ∷ ds) w = ground (
    arith,
    w ∙ last_header-append h.sbrk_start pre a (b ∷ (c ∷ (d ∷ ds))),
    last_header-above e d ds,
    same_place,
  )
    where
      same_place : last_header (behind p v) (d ∷ ds) ≡ last_header e (d ∷ ds)
      same_place = ap (λ (x : Ptr). last_header x (d ∷ ds)) (omega arith)

  abbrev pub both_statistics : Statistics
  both_statistics =
      update_statistics h.statistics (neg_word 2) (neg_word 1) (4 * size_of_metadata)
        (b.size + 4 * size_of_metadata) (neg_word (4 * size_of_metadata))

  abbrev pub merged_three : Memory → List Ptr → Heap
  merged_three m zs = record h {
    memory = copy_footer m p;
    head = first zs;
    size = pos (length zs);
    wilderness = if r == h.wilderness then p else h.wilderness;
    statistics = both_statistics;
  }

  size_after : (fuel : ℕ) (g : Heap) (k : Back fuel g) → copy_footer k.memory p q ≡ b.size
  size_after fuel g k =
      (copied-SameTag k.memory p q (rw at_p (inr (omega arith)))).0.0
      ∙ kept_q
      ∙ apart_q
      ∙ located.1.0.header_size
    where
      at_p : k.memory p ≡ v
      at_p =
          (All-member (SameTag (set_size h.memory p v) k.memory) p structs_all k.kept p_struct).0
          ∙ ground arith

      kept_q : k.memory q ≡ set_size h.memory p v q
      kept_q =
          (All-member (SameTag (set_size h.memory p v) k.memory) q structs_all k.kept q_struct).0

      apart_q : set_size h.memory p v q ≡ h.memory q
      apart_q = ground arith

  -- `mergeBlocks` of the block at `q` between two free blocks.
  pub merge_both-Shape :
      (fuel : ℕ)
      → length xs ≤ fuel
      → (m' : Memory) × (zs : List Ptr) × (merge_both fuel h (footer p a.size) q r
          ≡ done (merged_three m' zs))
        × Shape (merged_three m' zs) (pre ++ (block v a.is_free ∷ post)) zs
  unfolding merge_both
  merge_both-Shape fuel l =
      let grown = record h { memory = set_size h.memory p v } in
      let (m1, m2, run1, run2, linked2, perm2, same2) =
        remove_two h _ xs shape fuel grown r p (q ∷ rest) (grown-IsLinked h _ xs shape p v p_struct)
          perm_rpq l in
      let ys = erase p (erase r xs) in
      let ys_within =
        erased_Within h _ xs shape p (erase r xs)
          (erased_Within h _ xs shape r xs (within h _ xs shape)) in
      let (m3, run3, linked3, perm3, same3) =
        remove_step structs_all (spread h _ xs shape) fuel (relinked h m2 ys) q ys rest linked2
          perm2 ys_within (omega (arith, length-permᴰ perm2, length-permᴰ perm_rpq)) in
      let k =
        reinsert h.memory p v structs_all rest (spread h _ xs shape) _ p_struct _ _ fuel
          (relinked h m3 (erase q ys)) (erase q ys) linked3 perm3
          (erase-Ascending q h.memory ys (
            erase-Ascending p h.memory (erase r xs)
              (erase-Ascending r h.memory xs shape.listed.ascending)))
          (erased_Within h _ xs shape q ys ys_within)
          (SameTags-trans (set_size h.memory p v) m2 m3 structs_all same2 same3)
          (omega (arith, length-permᴰ perm3, length-permᴰ perm_rpq)) in
      (
        k.memory,
        k.list,
        rw
            (
              located.0.footer_size,
              place,
              located.0.header_size,
              located.1.0.header_size,
              located.1.1.0.header_size,
              new_size,
              run1,
              run2,
              run3,
              k.added,
              size_after fuel (relinked h m3 (erase q ys)) k,
            )
            refl,
        replaced h pre (a ∷ (b ∷ (c ∷ []))) post xs shape (copy_footer k.memory p) k.list v
            a.is_free _ both_statistics
            (subst (λ (f : Bool). Tile (copy_footer k.memory p) p (block v f)) located.0.header_free
              k.tile)
            (omega arith) k.same k.listed k.perm (wilderness_moves post shape.wilderness_last),
      )
    where
      place : footer p a.size - a.size - size_of_metadata ≡ p
      place = omega arith
