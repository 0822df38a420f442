-- ===== src/Malloc/FirstFit/Counters.antt =====
-- The counters of hw4/malloc_2.cpp follow the blocks.
use operations_systems.Base.{
  ℕ, zero, suc, ◌+◌, ◌≡◌, refl, Bool, true, false, some, List, [], ◌∷◌, ◌++◌, arith, length,
  length-append, get_elem?, if◌then◌else◌,
}
use operations_systems.Malloc.Words.{neg_word}
use operations_systems.Malloc.FirstFit.{Statistics, update_statistics, size_of_metadata}
use operations_systems.Malloc.FirstFit.Layout.{
  Block, block, mark, free_count, bytes_of, free_bytes_of, IsCounted,
}

-- The sums behind a change of one mark.
record Marked (bs : List Block) (k : ℕ) (b : Block) (f : Bool) : Type 0 where
  same_length : length (mark bs k f) ≡ length bs
  same_bytes : bytes_of (mark bs k f) ≡ bytes_of bs
  frees :
      free_count (mark bs k f) + (if b.is_free then 1 else 0) ≡ free_count bs + (if f then 1 else 0)
  free_bytes :
      free_bytes_of (mark bs k f) + (if b.is_free then b.size else 0)
      ≡ free_bytes_of bs + (if f then b.size else 0)

mark-Marked :
    (bs : List Block) (k : ℕ) (b : Block) (f : Bool) → get_elem? bs k ≡ some b → Marked bs k b f
mark-Marked [] k b f e = cc
mark-Marked (c ∷ bs) zero b f e = ground arith
mark-Marked (c ∷ bs) (suc k) b f e = ground (arith, mark-Marked bs k b f)

free_count-snoc : (bs : List Block) (n : ℕ) → free_count (bs ++ block n false ∷ []) ≡ free_count bs
free_count-snoc [] n = refl
free_count-snoc (b ∷ bs) n = omega (arith, free_count-snoc bs n)

bytes_of-snoc : (bs : List Block) (n : ℕ) → bytes_of (bs ++ block n false ∷ []) ≡ bytes_of bs + n
bytes_of-snoc [] n = omega arith
bytes_of-snoc (b ∷ bs) n = omega (arith, bytes_of-snoc bs n)

free_bytes_of-snoc :
    (bs : List Block) (n : ℕ) → free_bytes_of (bs ++ block n false ∷ []) ≡ free_bytes_of bs
free_bytes_of-snoc [] n = refl
free_bytes_of-snoc (b ∷ bs) n = omega (arith, free_bytes_of-snoc bs n)

module _ (s : Statistics) (bs : List Block) (c : IsCounted s bs) where
  pub IsCounted-snoc :
      (n : ℕ) → IsCounted (update_statistics s 1 0 n 0 size_of_metadata) (bs ++ block n false ∷ [])
  unfolding update_statistics
  IsCounted-snoc n = record {
    blocks = omega (arith, c.blocks, length-append bs (block n false ∷ []));
    frees = omega (arith, c.frees, free_count-snoc bs n);
    bytes = omega (arith, c.bytes, bytes_of-snoc bs n);
    free_bytes = omega (arith, c.free_bytes, free_bytes_of-snoc bs n);
    metadata = omega (arith, c.metadata, length-append bs (block n false ∷ []));
  }

  pub IsCounted-take :
      (k n : ℕ)
      → get_elem? bs k ≡ some (block n true)
      → IsCounted (update_statistics s 0 (neg_word 1) 0 (neg_word n) 0) (mark bs k false)
  unfolding update_statistics
  IsCounted-take k n e = record {
    blocks = omega (arith, c.blocks, m.same_length);
    frees = omega (arith, c.frees, m.frees);
    bytes = omega (arith, c.bytes, m.same_bytes);
    free_bytes = omega (arith, c.free_bytes, m.free_bytes);
    metadata = omega (arith, c.metadata, m.same_length);
  }
    where
      m : Marked bs k (block n true) false
      m = mark-Marked bs k (block n true) false e

  pub IsCounted-free :
      (k n : ℕ)
      → get_elem? bs k ≡ some (block n false)
      → IsCounted (update_statistics s 0 1 0 n 0) (mark bs k true)
  unfolding update_statistics
  IsCounted-free k n e = record {
    blocks = omega (arith, c.blocks, m.same_length);
    frees = omega (arith, c.frees, m.frees);
    bytes = omega (arith, c.bytes, m.same_bytes);
    free_bytes = omega (arith, c.free_bytes, m.free_bytes);
    metadata = omega (arith, c.metadata, m.same_length);
  }
    where
      m : Marked bs k (block n false) true
      m = mark-Marked bs k (block n false) true e
