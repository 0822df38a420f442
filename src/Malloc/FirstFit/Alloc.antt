-- ===== src/Malloc/FirstFit/Alloc.antt =====
-- `smalloc` of hw4/malloc_2.cpp implements the placement of blocks.
use operations_systems.Base.{
  ℕ, ◌+◌, ◌≤◌, ◌<◌, ◌≡◌, refl, sym, ap, ◌∙◌, Bool, true, false, Option, none, some, List, [], ◌∷◌,
  ◌++◌, arith, length, get_elem?, ltb, ◌==◌, ◌||◌, if◌then◌else◌,
}
use operations_systems.Malloc.Words.{Ptr, null, word, failed, set_cell, set_cell_self, set_cell-ne}
use operations_systems.Malloc.FirstFit.{
  Metadata, Heap, size_of_metadata, reuse, append_block, extend, smalloc, add_metadata,
  update_statistics,
}
use operations_systems.Malloc.FirstFit.Layout.{
  Block, block, behind, end, address, first, header, Linked, fit, IsHeap, Linked-congr, first-mark,
  end-mark, header_at, Linked-mark, address-lt-end, le-address,
}
use operations_systems.Malloc.FirstFit.Loops.{search_free_block-fit, add_metadata-snoc, found_at}
use operations_systems.Malloc.FirstFit.Counters.{IsCounted-snoc, IsCounted-take}
use operations_systems.Malloc.FirstFit.Place.{
  place, place_found, FitsAt, fit-FitsAt, lt-length_of_get_elem?,
}

end-snoc :
    (a : Ptr) (bs : List Block) (n : ℕ)
    → end a (bs ++ block n false ∷ []) ≡ end a bs + size_of_metadata + n
end-snoc a [] n = refl
end-snoc a (b ∷ bs) n = end-snoc (behind a b.size) bs n

-- A run that returns `r.0` and leaves a heap of the blocks `r.1`, with the payload as it was.
abbrev pub Placed : Option (Ptr × Heap) → Heap → (start : Ptr) → Ptr × List Block → Type 0
Placed o h start r = (h' : Heap) × (o ≡ some (r.0, h')) × IsHeap h' start r.1 × (h'.bytes ≡ h.bytes)

module _ (h : Heap) (start : Ptr) (bs : List Block) (w : IsHeap h start bs) (n : ℕ) where
  -- Behind the break.
  module _ (k : ℕ) (enough : length bs < k) where
    abbrev written : Ptr → Metadata
    written = set_cell h.cells h.brk (record (h.cells h.brk) { size = n; is_free = false })

    written_linked : Linked written start null bs
    written_linked =
        Linked-congr h.cells written start null bs w.linked
          λ x lo hi. set_cell-ne h.cells _ _ x (omega (arith, w.brk_end))

    written_new : written h.brk ≡ header (block n false) null null
    written_new = set_cell_self h.cells h.brk _ ∙ λ i. record (w.fresh h.brk (omega arith) i) {
      size = n;
      is_free = false;
    }

    abbrev longer : (Ptr → Metadata) → Ptr → Heap
    longer cells' head = record h {
      cells = cells';
      head = head;
      brk = h.brk + (n + size_of_metadata);
      statistics = update_statistics h.statistics 1 0 n 0 size_of_metadata;
    }

    append_block_run :
        (cells' : Ptr → Metadata) (head : Ptr)
        → add_metadata k written h.head h.brk ≡ some (cells', head)
        → append_block k h n h.brk (h.brk + (n + size_of_metadata))
          ≡ some (h.brk + size_of_metadata, longer cells' head)
    unfolding append_block
    append_block_run cells' head e = rw (append_block, e) refl

    append_block-snoc :
        Placed
          (append_block k h n h.brk (h.brk + (n + size_of_metadata)))
          h
          start
          (place_found none true start bs n)
    append_block-snoc =
        let (cells', run, linked, same) =
          add_metadata-snoc k written n h.brk start bs written_linked w.brk_end written_new enough
            w.start_pos in
        (
          longer cells' (first start (bs ++ block n false ∷ [])),
          append_block_run cells' _ (ap (λ p. add_metadata k written p h.brk) w.head_first ∙ run)
              ∙ λ i. some (
                w.brk_end i + size_of_metadata,
                longer cells' (first start (bs ++ block n false ∷ [])),
              ),
          record {
            start_pos = w.start_pos;
            linked = linked;
            head_first = refl;
            brk_end = omega (arith, end-snoc start bs n, w.brk_end);
            fresh = λ (a : Ptr) (le : h.brk + (n + size_of_metadata) ≤ a).
                same a (omega arith)
                ∙ set_cell-ne h.cells _ _ a (omega arith)
                ∙ w.fresh a (omega arith);
            counted = IsCounted-snoc h.statistics bs w.counted n;
          },
          refl,
        )

  -- The first free block that fits.
  module _ (k m : ℕ) (e : get_elem? bs k ≡ some (block m true)) where
    below : address start bs k < h.brk
    below = omega (arith, address-lt-end start bs k (lt-length_of_get_elem? bs k e), w.brk_end)

    reuse-mark :
        Placed (some (reuse h (address start bs k))) h start (place_found (some k) true start bs n)
    reuse-mark = (
      _,
      refl,
      record {
        start_pos = w.start_pos;
        linked = Linked-mark h.cells start null bs k false w.linked (lt-length_of_get_elem? bs k e);
        head_first = w.head_first ∙ sym (first-mark start bs k false);
        brk_end = w.brk_end ∙ sym (end-mark start bs k false);
        fresh = λ (a : Ptr) (le : h.brk ≤ a).
            set_cell-ne h.cells _ _ a (omega (arith, below)) ∙ w.fresh a le;
        counted =
            rw ((header_at h.cells start null bs k (block m true) w.linked e).0)
              (IsCounted-take h.statistics bs w.counted k m e);
      },
      refl,
    )

  module _ (granted : Bool) (fuel : ℕ) (pos_n : 0 < n) (small : n ≤ 100000000)
      (enough : length bs < fuel) (room : h.brk + n + size_of_metadata < word) where
    valid : (n == 0 || ltb 100000000 n) ≡ false
    valid = ground arith

    -- A call of a valid size takes the first free block that fits, or else a new block behind the
    -- last where the kernel grants it, or else returns NULL; the counters stay right.
    pub smalloc-place : Placed (smalloc granted fuel h n) h start (place granted start bs n)
    unfolding smalloc extend
    smalloc-place =
        rw
          (
            valid,
            w.head_first,
            search_free_block-fit fuel h.cells n start null bs w.linked w.start_pos enough,
          )
          (found (fit bs n) (fit-FitsAt bs n))
      where
        extended : (g : Bool) → Placed (extend g fuel h n) h start (place_found none g start bs n)
        extended true = rw (not_failed) (append_block-snoc fuel enough)
          where
            not_failed : (h.brk == failed) ≡ false
            not_failed = ground arith
        extended false = (h, refl, w, refl)

        found :
            (o : Option ℕ)
            → FitsAt bs n o
            → Placed
                (if found_at start bs o == null
                  then extend granted fuel h n
                  else some (reuse h (found_at start bs o)))
                h
                start
                (place_found o granted start bs n)
        found none _ = extended granted
        found (some k) (m, e, _) = rw not_null (reuse-mark k m e)
          where
            not_null : (address start bs k == null) ≡ false
            not_null = ground (arith, le-address start bs k, w.start_pos)
