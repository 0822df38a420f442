-- ===== src/Malloc/FirstFit/Tests.antt =====
-- A heap of hw4/malloc_2.cpp with a free block and one in use, and runs on it.
use operations_systems.Base.{
  ◌+◌, ◌^◌, ◌≤◌, ◌≡◌, ◌≢◌, refl, true, false, some, List, [], ◌∷◌, arith, ◌==◌, if◌then◌else◌,
}
use operations_systems.Malloc.Words.{Ptr, null, memset}
use operations_systems.Malloc.FirstFit.{
  Metadata, Heap, smalloc, scalloc, sfree, srealloc, search_free_block,
}
use operations_systems.Malloc.FirstFit.Layout.{Block, block, header, unused, IsHeap, mark}
use operations_systems.Malloc.FirstFit.Place.{place}
use operations_systems.Malloc.FirstFit.Alloc.{Placed, smalloc-place}
use operations_systems.Malloc.FirstFit.Release.{sfree-mark, scalloc-place}
use operations_systems.Malloc.FirstFit.Apart.{Apart, smalloc-Apart}
use operations_systems.Malloc.FirstFit.Resize.{resize, Resized, srealloc-resize}

abbrev blocks : List Block
blocks = block 100 true ∷ block 50 false ∷ []

abbrev cells : Ptr → Metadata
cells a =
    if a == 4096
    then header (block 100 true) 4228 null
    else if a == 4228
    then header (block 50 false) null 4096
    else unused

abbrev heap : Heap
heap = record {
  cells = cells;
  bytes = λ a. a;
  head = 4096;
  brk = 4310;
  statistics = record {
    allocated_blocks = 2;
    free_blocks = 1;
    allocated_bytes = 150;
    free_bytes = 100;
    metadata_bytes = 64;
  };
}

heap-IsHeap : IsHeap heap 4096 blocks
heap-IsHeap = record {
  start_pos = ground arith;
  linked = (refl, (refl, tt));
  head_first = refl;
  brk_end = refl;
  fresh = λ (a : Ptr) (le : 4310 ≤ a). ground arith;
  counted = record {
    blocks = refl;
    frees = refl;
    bytes = refl;
    free_bytes = refl;
    metadata = refl;
  };
}

smalloc-place_example : Placed (smalloc true 3 heap 200) heap 4096 (place true 4096 blocks 200)
smalloc-place_example =
    smalloc-place heap 4096 blocks heap-IsHeap 200 true 3 (ground arith) (ground arith)
      (ground arith) (ground arith)

sfree-mark_example :
    IsHeap (sfree heap 4260) 4096 (mark blocks 1 true)
    × ((sfree heap 4260).bytes ≡ heap.bytes)
    × (false ≡ true → sfree heap 4260 ≡ heap)
sfree-mark_example = sfree-mark heap 4096 blocks heap-IsHeap 1 50 false refl

-- 2^63 + 5 elements of 2 bytes are taken as 10 bytes.
scalloc-place_test :
    (h' : Heap) × (scalloc true 3 heap (2 ^ 63 + 5) 2 ≡ some ((place true 4096 blocks 10).0, h'))
    × IsHeap h' 4096 (place true 4096 blocks 10).1
    × ((place true 4096 blocks 10).0 ≢ null
        → h'.bytes ≡ memset heap.bytes (place true 4096 blocks 10).0 0 10)
scalloc-place_test =
    scalloc-place true 3 heap 4096 blocks (2 ^ 63 + 5) 2 10 heap-IsHeap refl (ground arith)
      (ground arith) (ground arith) (ground arith)

reuse_run : (h' : Heap) × (smalloc true 3 heap 60 ≡ some (4128, h'))
unfolding smalloc search_free_block
reuse_run = (_, refl)

smalloc-Apart_example : Apart 4096 blocks 1 50 4128 60
smalloc-Apart_example =
    smalloc-Apart true 3 heap reuse_run.0 4096 blocks 60 4128 heap-IsHeap (ground arith)
      (ground arith) (ground arith) (ground arith) reuse_run.1 (ground arith) 1 50 refl

srealloc-resize_example :
    Resized (srealloc true 3 heap 4260 90) heap 4096 4260 50 (resize true 4096 blocks 1 50 90)
srealloc-resize_example =
    srealloc-resize true 3 heap 4096 blocks 1 50 90 heap-IsHeap refl (ground arith) (ground arith)
      (ground arith) (ground arith)
