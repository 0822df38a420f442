-- ===== src/Malloc/BestFit/Blocks/Tests.antt =====
-- A heap of two blocks of hw4/malloc_3.cpp, and runs on it.
use operations_systems.Base.{◌≡◌, refl, inl, true, false, List, [], ◌∷◌, arith, ◌==◌, if◌then◌else◌}
use mathlib.Core.List.Permᴰ
use operations_systems.Base.Int.{pos}
use operations_systems.Malloc.Words.{Ptr}
use operations_systems.Malloc.BestFit.Memory.{Memory, Heap, done}
use operations_systems.Malloc.BestFit.BlockList.Chain.{node}
use operations_systems.Malloc.BestFit.Tiles.{block, Holds}
use operations_systems.Malloc.BestFit.Blocks.{sfree}
use operations_systems.Malloc.BestFit.Blocks.Release.{sfree-coalesce}

-- A free block of 400 bytes at 4096 and one of 800 bytes in use at 4560.
abbrev memory : Memory
memory a =
    if a == 4096
    then 400
    else if a == 4104
    then 1
    else if a == 4112
    then 4560
    else if a == 4528
    then 400
    else if a == 4536
    then 1
    else if a == 4560
    then 800
    else if a == 4584
    then 4096
    else if a == 5392
    then 800
    else 0

abbrev heap : Heap
heap = record {
  memory = memory;
  head = 4096;
  wilderness = 4560;
  size = pos 2;
  brk = 5424;
  sbrk_start = 4096;
  statistics = record {
    allocated_blocks = 2;
    free_blocks = 1;
    allocated_bytes = 1200;
    free_bytes = 400;
    metadata_bytes = 128;
  };
}

heap-Holds : Holds heap (block 400 true ∷ (block 800 false ∷ [])) (4096 ∷ (4560 ∷ []))
heap-Holds = record {
  shape = record {
    start_pos = omega arith;
    small = omega arith;
    tiles = (
      record { header_size = refl; header_free = refl; footer_size = refl; footer_free = refl },
      (
        record { header_size = refl; header_free = refl; footer_size = refl; footer_free = refl },
        refl,
      ),
    );
    listed = record {
      linked = record {
        chain = (node refl (omega arith) refl, (node refl (omega arith) refl, refl));
        spread = ((inl (omega arith), tt), (tt, tt));
        size_length = refl;
      };
      ascending = ((refl, tt), (tt, tt));
    };
    members = Permᴰ.refl (4096 ∷ (4560 ∷ []));
    wilderness_last = refl;
  };
  counted = record {
    blocks = refl;
    frees = refl;
    bytes = refl;
    free_bytes = refl;
    metadata = refl;
  };
}

sfree-coalesce_example :
    (h' : Heap) × (zs : List Ptr) × (sfree 2 heap 4592 ≡ done h')
    × Holds h' (block 1264 true ∷ []) zs
sfree-coalesce_example =
    sfree-coalesce 2 heap (block 400 true ∷ []) [] 800 (4096 ∷ (4560 ∷ [])) heap-Holds (omega arith)
      (omega arith)
