-- ===== src/Malloc/FirstFit/Release.antt =====
-- `sfree` and `scalloc` of hw4/malloc_2.cpp.
use operations_systems.Base.{
  ℕ, zero, suc, ◌+◌, ◌*◌, ◌-◌, ◌%◌, ◌≤◌, ◌<◌, ◌≡◌, ◌≢◌, refl, sym, ap, ◌∙◌, inl, inr, Bool, true,
  false, Bool-cases, some, List, [], ◌∷◌, arith, length, get_elem?, ◌==◌, if◌then◌else◌,
}
use native.Mathlib.Nat.{mul_comm}
use operations_systems.Malloc.Words.{Ptr, null, word, memset, set_cell-ne}
use operations_systems.Malloc.FirstFit.{
  Heap, size_of_metadata, set_is_free, update_statistics, sfree, smalloc, scalloc,
}
use operations_systems.Malloc.FirstFit.Layout.{
  Block, block, address, mark, IsHeap, first-mark, end-mark, header_at, Linked-mark, address-lt-end,
}
use operations_systems.Malloc.FirstFit.Counters.{IsCounted-free}
use operations_systems.Malloc.FirstFit.Place.{place, lt-length_of_get_elem?}
use operations_systems.Malloc.FirstFit.Alloc.{smalloc-place}

mark-same :
    (bs : List Block) (k m : ℕ) (f : Bool) → get_elem? bs k ≡ some (block m f) → mark bs k f ≡ bs
mark-same [] k m f e = refl
mark-same (b ∷ bs) zero m f e = ground arith
mark-same (b ∷ bs) (suc k) m f e = ap (λ cs. b ∷ cs) (mark-same bs k m f e)

pub IsHeap-bytes :
    (h : Heap) (start : Ptr) (bs : List Block) (bytes : ℕ → ℕ)
    → IsHeap h start bs
    → IsHeap (record h { bytes = bytes }) start bs
IsHeap-bytes h start bs bytes w = record {
  start_pos = w.start_pos;
  linked = w.linked;
  head_first = w.head_first;
  brk_end = w.brk_end;
  fresh = w.fresh;
  counted = w.counted;
}

pub sfree_bytes : (h : Heap) (p : Ptr) → (sfree h p).bytes ≡ h.bytes
unfolding sfree
sfree_bytes h p = elim (Bool-cases (p == null)) [
  | inl e ↦ rw e refl
  | inr e ↦ rw e (elim (Bool-cases (h.cells (p - size_of_metadata)).is_free) [
    | inl f ↦ rw f refl
    | inr f ↦ rw f refl
  ])
]

module _ (h : Heap) (start : Ptr) (bs : List Block) (w : IsHeap h start bs) (k m : ℕ) (f : Bool)
    (e : get_elem? bs k ≡ some (block m f)) where
  payload : Ptr
  payload = address start bs k + size_of_metadata

  is_payload : (address start bs k + size_of_metadata == null) ≡ false
  is_payload = ground arith

  header_of : address start bs k + size_of_metadata - size_of_metadata ≡ address start bs k
  header_of = omega arith

  below : address start bs k < h.brk
  below = omega (arith, address-lt-end start bs k (lt-length_of_get_elem? bs k e), w.brk_end)

  pub sfree-IsHeap : IsHeap (sfree h (address start bs k + size_of_metadata)) start (mark bs k true)
  unfolding sfree
  sfree-IsHeap =
      rw (is_payload, header_of, (header_at h.cells start null bs k (block m f) w.linked e).1)
        (marked f e)
    where
      marked :
          (g : Bool)
          → get_elem? bs k ≡ some (block m g)
          → IsHeap
              (if g then h else record h {
                cells = set_is_free h.cells (address start bs k) true;
                statistics =
                    update_statistics h.statistics 0 1 0 (h.cells (address start bs k)).size 0;
              })
              start
              (mark bs k true)
      marked true e' = rw (mark-same bs k m true e') w
      marked false e' = record {
        start_pos = w.start_pos;
        linked = Linked-mark h.cells start null bs k true w.linked (lt-length_of_get_elem? bs k e);
        head_first = w.head_first ∙ sym (first-mark start bs k true);
        brk_end = w.brk_end ∙ sym (end-mark start bs k true);
        fresh = λ (a : Ptr) (le : h.brk ≤ a).
            set_cell-ne h.cells _ _ a (omega (arith, below)) ∙ w.fresh a le;
        counted =
            rw ((header_at h.cells start null bs k (block m false) w.linked e').0)
              (IsCounted-free h.statistics bs w.counted k m e');
      }

  sfree-free : f ≡ true → sfree h (address start bs k + size_of_metadata) ≡ h
  unfolding sfree
  sfree-free free =
      rw (is_payload, header_of, (header_at h.cells start null bs k (block m f) w.linked e).1, free)
        refl

  -- `sfree` of a block's payload marks the block free, counts it, and changes no payload byte; where
  -- the block is free already, the heap is the same heap.
  pub sfree-mark :
      IsHeap (sfree h (address start bs k + size_of_metadata)) start (mark bs k true)
      × ((sfree h (address start bs k + size_of_metadata)).bytes ≡ h.bytes)
      × (f ≡ true → sfree h (address start bs k + size_of_metadata) ≡ h)
  sfree-mark = (sfree-IsHeap, sfree_bytes h (address start bs k + size_of_metadata), sfree-free)

module _ (granted : Bool) (fuel : ℕ) (h h' : Heap) (num size : ℕ) (a : Ptr)
    (run : smalloc granted fuel h (num * size % word) ≡ some (a, h')) where
  scalloc-null : (a == null) ≡ true → scalloc granted fuel h num size ≡ some (null, h')
  unfolding scalloc
  scalloc-null z = rw (scalloc, run, z) refl

  scalloc-block :
      (a == null) ≡ false
      → scalloc granted fuel h num size
        ≡ some (a, record h' { bytes = memset h'.bytes a 0 (size * num % word) })
  unfolding scalloc
  scalloc-block z = rw (scalloc, run, z) refl

-- `scalloc` of a product that is valid modulo 2^64 places a block of that many bytes like `smalloc`
-- does, sets each of them to zero and changes no other byte.
pub scalloc-place :
    (granted : Bool) (fuel : ℕ) (h : Heap) (start : Ptr) (bs : List Block) (num size n : ℕ)
    → IsHeap h start bs
    → num * size % word ≡ n
    → 0 < n
    → n ≤ 100000000
    → length bs < fuel
    → h.brk + n + size_of_metadata < word
    → (h' : Heap) × (scalloc granted fuel h num size ≡ some ((place granted start bs n).0, h'))
      × IsHeap h' start (place granted start bs n).1
      × ((place granted start bs n).0 ≢ null
          → h'.bytes ≡ memset h.bytes (place granted start bs n).0 0 n)
scalloc-place granted fuel h start bs num size n w product pos_n small enough room =
    let (h', run, w', same) = smalloc-place h start bs w n granted fuel pos_n small enough room in
    let run' = ap (smalloc granted fuel h) product ∙ run in
    elim (Bool-cases ((place granted start bs n).0 == null)) [
      | inl z ↦ (
        h',
        scalloc-null granted fuel h h' num size _ run' z ∙ λ i. some (is_null _ z i, h'),
        w',
        λ ne. absurd (ne (sym (is_null _ z))),
      )
      | inr z ↦ (
        _,
        scalloc-block granted fuel h h' num size _ run' z,
        IsHeap-bytes h' start _ _ w',
        λ _. (λ i. memset (same i) (place granted start bs n).0 0 (commuted i)),
      )
    ]
  where
    is_null : (a : Ptr) → (a == null) ≡ true → null ≡ a
    is_null a z = ground arith

    commuted : size * num % word ≡ n
    commuted = ap (λ x. x % word) (mul_comm size num) ∙ product
