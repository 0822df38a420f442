-- ===== src/Malloc/BestFit/Blocks/Merge.antt =====
-- `mergeBlocks` of hw4/malloc_3.cpp on a heap of blocks: two or three blocks become one.
use operations_systems.Base.{
  ℕ, ◌-◌, ◌+◌, ◌%◌, ◌≤◌, ◌<◌, ◌≡◌, refl, ap, ◌∙◌, inr, Bool, true, List, [], ◌∷◌, ◌++◌, arith,
  length, if◌then◌else◌, ◌==◌,
}
use mathlib.Core.List.{Permᴰ}
use mathlib.Core.List.Permᴰ
use mathlib.Core.Path.{subst}
use operations_systems.Base.Int.{pos}
use operations_systems.Malloc.Words.{Ptr, word, neg_word}
use operations_systems.Malloc.BestFit.Memory.{
  size_of_metadata, update_statistics, sub_word, Memory, Heap, Statistics, set_size, size_at,
  copy_footer, tags, done,
}
use operations_systems.Malloc.BestFit.BlockList.Order.{IsLinked, IsList, Ascending, first, relinked}
use operations_systems.Malloc.BestFit.BlockList.Erase.{has, erase, erase-Ascending}
use operations_systems.Malloc.BestFit.BlockList.Members.{All-member, length-permᴰ}
use operations_systems.Malloc.BestFit.BlockList.Steps.{SameTag, SameTags, Within}
use operations_systems.Malloc.BestFit.Tiles.{
  Block, block, footer, behind, Tile, Tiles, headers, structs, end, last_header, Shape,
}
use operations_systems.Malloc.BestFit.Tiles.Layout.{headers-append, Tiles-split, Tiles-end, le-end}
use operations_systems.Malloc.BestFit.Tiles.Replace.{
  replaced, outer_headers, last_header-append, last_header-above,
}
use operations_systems.Malloc.BestFit.Blocks.Context.{
  spread, within, grown-IsLinked, remove_two, erased_Within, listed_struct,
}
use operations_systems.Malloc.BestFit.Blocks.{merge_next, merge_prev}
use operations_systems.Malloc.BestFit.Blocks.Reinsert.{copied-SameTag, Reinserted, reinsert}

-- The blocks `b` and `c` between others.
module _ (h : Heap) (pre post : List Block) (b c : Block) (xs : List Ptr)
    (shape : Shape h (pre ++ (b ∷ (c ∷ post))) xs) where
  abbrev p : Ptr
  p = end h.sbrk_start pre

  abbrev q : Ptr
  q = behind p b.size

  abbrev e : Ptr
  e = behind q c.size

  abbrev v : ℕ
  v = b.size + c.size + tags

  abbrev rest : List Ptr
  rest = headers h.sbrk_start pre ++ headers e post

  abbrev structs_all : List Ptr
  structs_all = structs h.sbrk_start (pre ++ (b ∷ (c ∷ post)))

  perm_pq : Permᴰ xs (p ∷ (q ∷ rest))
  perm_pq = Permᴰ.trans shape.members (
      rw (headers-append h.sbrk_start pre (b ∷ (c ∷ post))) (
        Permᴰ.trans (Permᴰ.middle p (headers h.sbrk_start pre) (q ∷ headers e post))
          (Permᴰ.cons refl (Permᴰ.middle q (headers h.sbrk_start pre) (headers e post)))))

  perm_qp : Permᴰ xs (q ∷ (p ∷ rest))
  perm_qp = Permᴰ.trans perm_pq (Permᴰ.swap refl refl)

  located : Tile h.memory p b × (Tile h.memory q c × Tiles h.memory e post h.brk)
  located = (Tiles-split h.memory h.brk (b ∷ (c ∷ post)) h.sbrk_start pre shape.tiles).1

  bound : e < word
  bound = omega (arith, shape.small, Tiles-end h.memory e h.brk post located.1.1, le-end e post)

  new_size : (size_at h.memory p + (size_at h.memory q + tags)) % word ≡ v
  new_size = omega (arith, bound, located.0.header_size, located.1.0.header_size)

  p_struct : has p structs_all ≡ true
  p_struct = listed_struct h _ xs shape p _ perm_pq

  -- The outcome of the list operations behind both removals.
  abbrev Back : ℕ → Heap → Type 0
  Back fuel g =
      Reinserted h.memory p v structs_all rest (spread h _ xs shape)
        (omega (arith, shape.start_pos, le-end h.sbrk_start pre)) p_struct
        (outer_headers h.sbrk_start e p pre post (omega arith) (omega arith))
        (
          inr (omega arith),
          outer_headers h.sbrk_start e (footer p v) pre post (omega arith) (omega arith),
        )
        fuel g

  back :
      (fuel : ℕ) (ys : List Ptr) (m2 : Memory)
      → IsLinked (relinked h m2 ys) ys
      → Permᴰ ys rest
      → Ascending h.memory ys
      → Within structs_all ys
      → SameTags (set_size h.memory p v) m2 structs_all
      → length ys ≤ fuel
      → Back fuel (relinked h m2 ys)
  back fuel ys m2 is perm asc w same l =
      reinsert h.memory p v structs_all rest (spread h _ xs shape) _ p_struct _ _ fuel
        (relinked h m2 ys) ys is perm asc w same l

  wilderness_moves :
      (ds : List Block)
      → h.wilderness ≡ last_header h.sbrk_start (pre ++ (b ∷ (c ∷ ds)))
      → (if q == h.wilderness then p else h.wilderness) ≡ last_header p (block v b.is_free ∷ ds)
  wilderness_moves [] w = ground (arith, w ∙ last_header-append h.sbrk_start pre b (c ∷ []))
  wilderness_moves (d ∷ ds) w = ground (
    arith,
    w ∙ last_header-append h.sbrk_start pre b (c ∷ (d ∷ ds)),
    last_header-above e d ds,
    same_place,
  )
    where
      same_place : last_header (behind p v) (d ∷ ds) ≡ last_header e (d ∷ ds)
      same_place = ap (λ (a : Ptr). last_header a (d ∷ ds)) (omega arith)

  -- The heap with the block in place, whatever the counters say.
  abbrev pub merged : Memory → List Ptr → Statistics → Heap
  merged m zs st = record h {
    memory = copy_footer m p;
    head = first zs;
    size = pos (length zs);
    wilderness = if q == h.wilderness then p else h.wilderness;
    statistics = st;
  }

  merged-Shape :
      (fuel : ℕ) (g : Heap) (r : Back fuel g) (st : Statistics)
      → IsList
          (record h {
            memory = copy_footer r.memory p;
            head = first r.list;
            size = pos (length r.list);
          })
          r.list
      → Shape (merged r.memory r.list st) (pre ++ (block v b.is_free ∷ post)) r.list
  merged-Shape fuel g r st listed =
      replaced h pre (b ∷ (c ∷ [])) post xs shape (copy_footer r.memory p) r.list v b.is_free _ st
        (subst (λ (f : Bool). Tile (copy_footer r.memory p) p (block v f)) located.0.header_free
          r.tile)
        (omega arith) r.same listed r.perm (wilderness_moves post shape.wilderness_last)

  abbrev grown : Heap
  grown = record h { memory = set_size h.memory p v }

  abbrev pub next_statistics : Statistics
  next_statistics =
      update_statistics h.statistics (neg_word 1) 0 tags (sub_word v c.size) (neg_word tags)

  abbrev pub prev_statistics : Statistics
  prev_statistics =
      update_statistics h.statistics (neg_word 1) 0 tags (c.size + tags) (neg_word tags)

  twice_Ascending : (x y : Ptr) → Ascending h.memory (erase x (erase y xs))
  twice_Ascending x y =
      erase-Ascending x h.memory (erase y xs) (erase-Ascending y h.memory xs shape.listed.ascending)

  twice_Within : (x y : Ptr) → Within structs_all (erase x (erase y xs))
  twice_Within x y =
      erased_Within h _ xs shape x (erase y xs)
        (erased_Within h _ xs shape y xs (within h _ xs shape))

  q_struct : has q structs_all ≡ true
  q_struct = listed_struct h _ xs shape q _ perm_qp

  -- The old header at `q` stays, inside the merged block.
  sizes_after :
      (fuel : ℕ) (g : Heap) (r : Back fuel g)
      → (copy_footer r.memory p p ≡ v) × (copy_footer r.memory p q ≡ c.size)
  sizes_after fuel g r = (
    r.tile.header_size,
    (copied-SameTag r.memory p q (rw at_p (inr (omega arith)))).0.0
        ∙ kept_q
        ∙ apart_q
        ∙ located.1.0.header_size,
  )
    where
      at_p : r.memory p ≡ v
      at_p =
          (All-member (SameTag (set_size h.memory p v) r.memory) p structs_all r.kept p_struct).0
          ∙ ground arith

      kept_q : r.memory q ≡ set_size h.memory p v q
      kept_q =
          (All-member (SameTag (set_size h.memory p v) r.memory) q structs_all r.kept q_struct).0

      apart_q : set_size h.memory p v q ≡ h.memory q
      apart_q = ground arith

  -- `mergeBlocks` of the block at `p` with the free block behind it.
  pub merge_next-Shape :
      (fuel : ℕ)
      → length xs ≤ fuel
      → (m' : Memory) × (zs : List Ptr) × (merge_next fuel h p q
          ≡ done (merged m' zs next_statistics))
        × Shape (merged m' zs next_statistics) (pre ++ (block v b.is_free ∷ post)) zs
  unfolding merge_next
  merge_next-Shape fuel l =
      let (m1, m2, run1, run2, linked, perm, same) =
        remove_two h _ xs shape fuel grown q p rest (grown-IsLinked h _ xs shape p v p_struct)
          perm_qp l in
      let r =
        back fuel (erase p (erase q xs)) m2 linked perm (twice_Ascending p q) (twice_Within p q)
          same (omega (arith, length-permᴰ perm, length-permᴰ perm_qp)) in
      let sizes = sizes_after fuel (relinked h m2 (erase p (erase q xs))) r in
      (
        r.memory,
        r.list,
        rw (new_size, run1, run2, r.added, sizes.0, sizes.1) refl,
        merged-Shape fuel _ r _ r.listed,
      )

  -- `mergeBlocks` of the block at `q` with the free block before it.
  pub merge_prev-Shape :
      (fuel : ℕ)
      → length xs ≤ fuel
      → (m' : Memory) × (zs : List Ptr) × (merge_prev fuel h (footer p b.size) q
          ≡ done (merged m' zs prev_statistics))
        × Shape (merged m' zs prev_statistics) (pre ++ (block v b.is_free ∷ post)) zs
  unfolding merge_prev
  merge_prev-Shape fuel l =
      let (m1, m2, run1, run2, linked, perm, same) =
        remove_two h _ xs shape fuel grown p q rest (grown-IsLinked h _ xs shape p v p_struct)
          perm_pq l in
      let r =
        back fuel (erase q (erase p xs)) m2 linked perm (twice_Ascending q p) (twice_Within q p)
          same (omega (arith, length-permᴰ perm, length-permᴰ perm_pq)) in
      let sizes = sizes_after fuel (relinked h m2 (erase q (erase p xs))) r in
      (
        r.memory,
        r.list,
        rw (located.0.footer_size, place, new_size, run1, run2, r.added, sizes.1) refl,
        merged-Shape fuel _ r _ r.listed,
      )
    where
      place : footer p b.size - b.size - size_of_metadata ≡ p
      place = omega arith
