-- ===== src/Malloc/BestFit/Tiles/Coalesce.antt =====
-- What freeing a block makes of a row of blocks, and what it does to the counters.
use operations_systems.Base.{
  ℕ, ◌+◌, ◌-◌, ◌<◌, ◌*◌, ◌%◌, ◌≡◌, refl, ap, inl, inr, Bool-cases, true, false, List, [], ◌∷◌, ◌++◌,
  arith, length, length-append, if◌then◌else◌,
}
use mathlib.Core.Path.{subst, sym}
use operations_systems.Malloc.Words.{Ptr, word, neg_word}
use operations_systems.Malloc.BestFit.Memory.{
  tags, size_of_metadata, sub_word, Statistics, update_statistics,
}
use operations_systems.Malloc.BestFit.Tiles.{
  end, behind, Block, block, free_count, bytes_of, free_bytes_of, IsCounted,
}

-- A free block of `n` bytes, and the block behind it where that is free.
abbrev pub with_next : (n : ℕ) → List Block → List Block
with_next n [] = block n true ∷ []
with_next n (c ∷ cs) =
    if c.is_free then block (n + c.size + tags) true ∷ cs else block n true ∷ (c ∷ cs)

-- A block joins the free block behind it where it is free itself.
abbrev pub join : Block → List Block → List Block
join a [] = a ∷ []
join a (c ∷ cs) = if a.is_free then block (a.size + c.size + tags) true ∷ cs else a ∷ (c ∷ cs)

abbrev pub with_prev : List Block → List Block → List Block
with_prev [] bs = bs
with_prev (a ∷ []) bs = join a bs
with_prev (a ∷ (d ∷ ds)) bs = a ∷ with_prev (d ∷ ds) bs

-- A block of `n` bytes between `pre` and `post` becomes free, and one with its free neighbours.
abbrev pub coalesce : (pre : List Block) → (n : ℕ) → (post : List Block) → List Block
coalesce pre n post = with_prev pre (with_next n post)

pub with_prev-snoc :
    (pre : List Block) (a : Block) (bs : List Block)
    → with_prev (pre ++ (a ∷ [])) bs ≡ pre ++ join a bs
with_prev-snoc [] a bs = refl
with_prev-snoc (d ∷ []) a bs = refl
with_prev-snoc (d ∷ (b ∷ pre)) a bs =
    ap (λ (cs : List Block). d ∷ cs) (with_prev-snoc (b ∷ pre) a bs)

pub append-snoc :
    (bs : List Block) (a : Block) (cs : List Block) → (bs ++ (a ∷ [])) ++ cs ≡ bs ++ (a ∷ cs)
append-snoc [] a cs = refl
append-snoc (b ∷ bs) a cs = ap (λ (ds : List Block). b ∷ ds) (append-snoc bs a cs)

pub end-snoc :
    (p : Ptr) (bs : List Block) (a : Block) → end p (bs ++ (a ∷ [])) ≡ behind (end p bs) a.size
end-snoc p [] a = refl
end-snoc p (b ∷ bs) a = end-snoc (behind p b.size) bs a

-- A block in use joins nothing.
pub join-used :
    (a : Block) (n : ℕ) (post : List Block)
    → a.is_free ≡ false
    → join a (with_next n post) ≡ a ∷ with_next n post
join-used a n [] e = rw e refl
join-used a n (c ∷ cs) e = elim (Bool-cases c.is_free) [
  | inl f ↦ rw (f, e) refl
  | inr f ↦ rw (f, e) refl
]

pub append-nil : (bs : List Block) → bs ++ [] ≡ bs
append-nil [] = refl
append-nil (b ∷ bs) = ap (λ (cs : List Block). b ∷ cs) (append-nil bs)

free_count-append : (bs cs : List Block) → free_count (bs ++ cs) ≡ free_count bs + free_count cs
free_count-append [] cs = omega arith
free_count-append (b ∷ bs) cs = omega (arith, free_count-append bs cs)

bytes_of-append : (bs cs : List Block) → bytes_of (bs ++ cs) ≡ bytes_of bs + bytes_of cs
bytes_of-append [] cs = omega arith
bytes_of-append (b ∷ bs) cs = omega (arith, bytes_of-append bs cs)

free_bytes_of-append :
    (bs cs : List Block) → free_bytes_of (bs ++ cs) ≡ free_bytes_of bs + free_bytes_of cs
free_bytes_of-append [] cs = omega arith
free_bytes_of-append (b ∷ bs) cs = omega (arith, free_bytes_of-append bs cs)

-- A change in the middle of the row, by the sums of what was there and what is there.
module _ (s : Statistics) (pre old new post : List Block)
    (blocks frees bytes free_bytes metadata : ℕ) (c : IsCounted s (pre ++ (old ++ post))) where
  pub recount :
      (length old + blocks) % word ≡ length new % word
      → (free_count old + frees) % word ≡ free_count new % word
      → (bytes_of old + bytes) % word ≡ bytes_of new % word
      → (free_bytes_of old + free_bytes) % word ≡ free_bytes_of new % word
      → (tags * length old + metadata) % word ≡ (tags * length new) % word
      → IsCounted
          (update_statistics s blocks frees bytes free_bytes metadata)
          (pre ++ (new ++ post))
  recount e f g k l = record {
    blocks = omega (
      arith,
      e,
      c.blocks,
      length-append pre (old ++ post),
      length-append pre (new ++ post),
      length-append old post,
      length-append new post,
    );
    frees = omega (
      arith,
      f,
      c.frees,
      free_count-append pre (old ++ post),
      free_count-append pre (new ++ post),
      free_count-append old post,
      free_count-append new post,
    );
    bytes = omega (
      arith,
      g,
      c.bytes,
      bytes_of-append pre (old ++ post),
      bytes_of-append pre (new ++ post),
      bytes_of-append old post,
      bytes_of-append new post,
    );
    free_bytes = omega (
      arith,
      k,
      c.free_bytes,
      free_bytes_of-append pre (old ++ post),
      free_bytes_of-append pre (new ++ post),
      free_bytes_of-append old post,
      free_bytes_of-append new post,
    );
    metadata = omega (
      arith,
      l,
      c.metadata,
      length-append pre (old ++ post),
      length-append pre (new ++ post),
      length-append old post,
      length-append new post,
    );
  }

module _ (s : Statistics) (pre post : List Block) (n : ℕ) where
  pub IsCounted-free :
      IsCounted s (pre ++ (block n false ∷ post))
      → IsCounted (update_statistics s 0 1 0 n 0) (pre ++ (block n true ∷ post))
  IsCounted-free c =
      recount s pre (block n false ∷ []) (block n true ∷ []) post 0 1 0 n 0 c (omega arith)
        (omega arith) (omega arith) (omega arith) (omega arith)

  pub IsCounted-next :
      (k : ℕ)
      → IsCounted s (pre ++ (block n false ∷ (block k true ∷ post)))
      → IsCounted
          (update_statistics s (neg_word 1) 0 tags (sub_word (n + k + tags) k) (neg_word tags))
          (pre ++ (block (n + k + tags) true ∷ post))
  IsCounted-next k c =
      recount s pre (block n false ∷ (block k true ∷ [])) (block (n + k + tags) true ∷ []) post _ _
        _ _ _ c (omega arith) (omega arith) (omega arith) (omega arith) (omega arith)

  pub IsCounted-prev :
      (k : ℕ)
      → IsCounted s (pre ++ (block k true ∷ (block n false ∷ post)))
      → IsCounted
          (update_statistics s (neg_word 1) 0 tags (n + tags) (neg_word tags))
          (pre ++ (block (k + n + tags) true ∷ post))
  IsCounted-prev k c =
      recount s pre (block k true ∷ (block n false ∷ [])) (block (k + n + tags) true ∷ []) post _ _
        _ _ _ c (omega arith) (omega arith) (omega arith) (omega arith) (omega arith)

  pub IsCounted-both :
      (k j : ℕ)
      → IsCounted s (pre ++ (block k true ∷ (block n false ∷ (block j true ∷ post))))
      → IsCounted
          (update_statistics s
            (neg_word 2)
            (neg_word 1)
            (4 * size_of_metadata)
            (n + 4 * size_of_metadata)
            (neg_word (4 * size_of_metadata)))
          (pre ++ (block (k + n + j + 4 * size_of_metadata) true ∷ post))
  IsCounted-both k j c =
      recount s pre (block k true ∷ (block n false ∷ (block j true ∷ [])))
        (block (k + n + j + 4 * size_of_metadata) true ∷ []) post _ _ _ _ _ c (omega arith)
        (omega arith) (omega arith) (omega arith) (omega arith)

-- The row has a new last block, or a larger one in use in place of a free last one.
module _ (s : Statistics) (pre : List Block) (n : ℕ) where
  pub IsCounted-last :
      IsCounted s pre → IsCounted (update_statistics s 1 0 n 0 tags) (pre ++ (block n false ∷ []))
  IsCounted-last c =
      recount s pre [] (block n false ∷ []) [] 1 0 n 0 tags
        (subst (IsCounted s) (sym (append-nil pre)) c) (omega arith) (omega arith) (omega arith)
        (omega arith) (omega arith)

  pub IsCounted-larger :
      (k : ℕ)
      → k < n
      → IsCounted s (pre ++ (block k true ∷ []))
      → IsCounted
          (update_statistics s 0 (neg_word 1) (n - k) (neg_word k) 0)
          (pre ++ (block n false ∷ []))
  IsCounted-larger k l c =
      recount s pre (block k true ∷ []) (block n false ∷ []) [] _ _ _ _ _ c (omega arith)
        (omega arith) (omega arith) (omega arith) (omega arith)
