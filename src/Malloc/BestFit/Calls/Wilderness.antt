-- ===== src/Malloc/BestFit/Calls/Wilderness.antt =====
-- `smalloc` of hw4/malloc_3.cpp where no free block fits and the last block is free: it grows.
use operations_systems.Base.{
  ℕ, ◌+◌, ◌-◌, ◌≤◌, ◌<◌, ◌≡◌, refl, sym, ap, ◌∙◌, inl, inr, true, false, Bool-cases, List, [], ◌∷◌,
  ◌++◌, arith, length, leb, ◌==◌,
}
use mathlib.Core.List.{Permᴰ}
use mathlib.Core.List.Permᴰ
use mathlib.Core.Path.{subst}
use operations_systems.Base.Int.{pos}
use operations_systems.Malloc.Words.{Ptr, null, word, failed, neg_word}
use operations_systems.Malloc.BestFit.Memory.{
  Memory, Heap, Statistics, done, size_of_metadata, sub_word, update_statistics, size_at, ◌>>=◌,
}
use operations_systems.Malloc.BestFit.BlockList.{remove_metadata}
use operations_systems.Malloc.BestFit.BlockList.Order.{IsList, first}
use operations_systems.Malloc.BestFit.BlockList.Erase.{has, erase}
use operations_systems.Malloc.BestFit.BlockList.Remove.{remove_metadata-erase}
use operations_systems.Malloc.BestFit.BlockList.Members.{
  erase-perm, has-perm, All-perm, length-permᴰ,
}
use operations_systems.Malloc.BestFit.BlockList.Steps.{SameTags, SameTag, SameTags-links}
use operations_systems.Malloc.BestFit.Kernel.{Kernel}
use operations_systems.Malloc.BestFit.Tiles.{
  Block, block, behind, structs, headers, end, Tile, Holds,
}
use operations_systems.Malloc.BestFit.Tiles.Layout.{
  Tiles-split, headers-append, structs-append, structs-Spread, headers-Within, All-split,
}
use operations_systems.Malloc.BestFit.Tiles.Replace.{last_header-append}
use operations_systems.Malloc.BestFit.Tiles.Coalesce.{IsCounted-larger}
use operations_systems.Malloc.BestFit.Calls.{place, grow_wilderness}
use operations_systems.Malloc.BestFit.Calls.Place.{moved, place-Shape}
use operations_systems.Malloc.BestFit.Calls.Extend.{Extended}

-- The last block is free and has `k` bytes, fewer than `n`.
module _ (os : Kernel) (fuel : ℕ) (h : Heap) (pre : List Block) (k n : ℕ) (xs : List Ptr)
    (s : Holds h (pre ++ (block k true ∷ [])) xs) (larger : k < n)
    (small : behind (end h.sbrk_start pre) n < word) (enough : length xs ≤ fuel) where
  abbrev p : Ptr
  p = end h.sbrk_start pre

  abbrev w : Ptr
  w = h.wilderness

  wilderness_p : w ≡ p
  wilderness_p = s.shape.wilderness_last ∙ last_header-append h.sbrk_start pre (block k true) []

  located : Tile h.memory p (block k true) × (behind p k ≡ h.brk)
  located = (Tiles-split h.memory h.brk (block k true ∷ []) h.sbrk_start pre s.shape.tiles).1

  old_size : size_at h.memory w ≡ k
  old_size = ap h.memory wilderness_p ∙ located.0.header_size

  added : sub_word n k ≡ n - k
  added = omega arith

  not_larger : leb n k ≡ false
  not_larger = ground arith

  abbrev st : Statistics
  st = update_statistics h.statistics 0 (neg_word 1) (n - k) (neg_word k) 0

  abbrev grown : Heap
  grown = record h { brk = h.brk + (n - k); statistics = st }

  grow_wilderness-none :
      os.grants h.brk (n - k) ≡ false → grow_wilderness os fuel h n ≡ done (null, h)
  unfolding grow_wilderness
  grow_wilderness-none g = rw (old_size, added, not_larger, g) refl

  grow_wilderness-place :
      os.grants h.brk (n - k) ≡ true
      → grow_wilderness os fuel h n
        ≡ (remove_metadata fuel grown w >>= (λ (h' : Heap). place fuel h' n w))
  unfolding grow_wilderness
  grow_wilderness-place g = rw (old_size, added, not_larger, g, not_failed) refl
    where
      not_failed : (h.brk == failed) ≡ false
      not_failed = ground (arith, located.1)

  perm : Permᴰ xs (w ∷ headers h.sbrk_start pre)
  perm =
      subst (λ (a : Ptr). Permᴰ xs (a ∷ headers h.sbrk_start pre)) (sym wilderness_p)
        (Permᴰ.trans s.shape.members (
          rw (headers-append h.sbrk_start pre (block k true ∷ [])) (
            Permᴰ.trans (Permᴰ.middle p (headers h.sbrk_start pre) [])
              (Permᴰ.cons refl (Permᴰ.append-nil (headers h.sbrk_start pre))))))

  erased : Permᴰ (erase w xs) (headers h.sbrk_start pre)
  erased = rw (sym erase_first) (erase-perm w perm)
    where
      erase_first : erase w (w ∷ headers h.sbrk_start pre) ≡ headers h.sbrk_start pre
      erase_first = ground arith

  abbrev ts : List Ptr
  ts = structs h.sbrk_start (pre ++ (block k true ∷ []))

  kept : (m : Memory) → SameTags h.memory m ts → SameTags h.memory m (structs h.sbrk_start pre)
  kept m same =
      (All-split (SameTag h.memory m) (structs h.sbrk_start pre) _
        (subst (SameTags h.memory m) (structs-append h.sbrk_start pre (block k true ∷ [])) same)).0

  grown-IsList : IsList grown xs
  grown-IsList = record {
    linked = record {
      chain = s.shape.listed.linked.chain;
      spread = s.shape.listed.linked.spread;
      size_length = s.shape.listed.linked.size_length;
    };
    ascending = s.shape.listed.ascending;
  }

  granted :
      os.grants h.brk (n - k) ≡ true
      → (h' : Heap) × (zs : List Ptr) × (os.grants h.brk (n - k) ≡ true)
        × (grow_wilderness os fuel h n ≡ done (p + size_of_metadata, h'))
        × Holds h' (pre ++ (block n false ∷ [])) zs
  granted g =
      let (m1, run1, listed1, same1) =
        remove_metadata-erase fuel grown w xs grown-IsList (has-perm w perm ∙ ground arith)
          enough in
      let same =
        SameTags-links ts (structs-Spread h.sbrk_start (pre ++ (block k true ∷ []))) h.memory m1 xs
          same1
          (All-perm (λ x. has x ts ≡ true) (Permᴰ.symm s.shape.members)
            (headers-Within h.sbrk_start (pre ++ (block k true ∷ [])))) in
      let (m', zs, run, shape) =
        place-Shape h pre (block k true ∷ []) xs s.shape n fuel m1 (first (erase w xs))
          (pos (length (erase w xs))) st (erase w xs)
          (record {
            linked = record {
              chain = listed1.linked.chain;
              spread = listed1.linked.spread;
              size_length = refl;
            };
            ascending = listed1.ascending;
          })
          erased (kept m1 same) small (omega (arith, length-permᴰ erased, length-permᴰ perm)) in
      (
        moved h pre (block k true ∷ []) xs s.shape n m' (first zs) (pos (length zs)) st,
        zs,
        g,
        grow_wilderness-place g ∙ rw run1 (at_place m1 ∙ run),
        record { shape = shape; counted = IsCounted-larger h.statistics pre n k larger s.counted },
      )
    where
      room : Memory → (a e : Ptr) → Heap
      room m a e = record h {
        memory = m;
        head = first (erase w xs);
        size = pos (length (erase w xs));
        wilderness = a;
        brk = e;
        statistics = st;
      }

      at_place :
          (m : Memory)
          → place fuel (room m w (h.brk + (n - k))) n w ≡ place fuel (room m p (behind p n)) n p
      at_place m =
          ap (λ (a : Ptr). place fuel (room m a (h.brk + (n - k))) n a) wilderness_p
          ∙ ap (λ (e : Ptr). place fuel (room m p e) n p) (omega (arith, located.1))

  -- On a heap of blocks whose last is free and smaller than `n`, with fuel for every block and the new
  -- break below 2^64: where the kernel grants it, the last block grows to `n` bytes, is in use, and its
  -- payload is returned, and list, footers and counters follow; or else NULL is returned and the heap
  -- stays as it was.
  pub grow_wilderness-Extended :
      Extended h (os.grants h.brk (n - k)) pre n (grow_wilderness os fuel h n)
  grow_wilderness-Extended = elim (Bool-cases (os.grants h.brk (n - k))) [
    | inl g ↦ inr (granted g)
    | inr g ↦ inl (g, grow_wilderness-none g)
  ]
