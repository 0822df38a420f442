-- ===== src/Malloc/BestFit/Calls/Tests.antt =====
-- A heap of two blocks of hw4/malloc_3.cpp, extended.
use operations_systems.Base.{refl, inl, true, false, [], ◌∷◌, arith, ◌==◌, if◌then◌else◌}
use mathlib.Core.List.Permᴰ
use operations_systems.Base.Int.{pos}
use operations_systems.Malloc.BestFit.Memory.{Memory, Heap}
use operations_systems.Malloc.BestFit.BlockList.Chain.{node}
use operations_systems.Malloc.BestFit.Kernel.{Kernel}
use operations_systems.Malloc.BestFit.Tiles.{block, Holds}
use operations_systems.Malloc.BestFit.Calls.{append_block, grow_wilderness}
use operations_systems.Malloc.BestFit.Calls.Extend.{Extended, append_block-Extended}
use operations_systems.Malloc.BestFit.Calls.Wilderness.{grow_wilderness-Extended}

-- A block of 400 bytes in use at 4096 and a free one of 800 bytes at 4560.
abbrev memory : Memory
memory a =
    if a == 4096
    then 400
    else if a == 4112
    then 4560
    else if a == 4528
    then 400
    else if a == 4560
    then 800
    else if a == 4584
    then 4096
    else if a == 4568
    then 1
    else if a == 5392
    then 800
    else if a == 5400
    then 1
    else 0

abbrev heap : Heap
heap = record {
  memory = memory;
  head = 4096;
  wilderness = 4560;
  size = pos 2;
  brk = 5424;
  sbrk_start = 4096;
  statistics = record {
    allocated_blocks = 2;
    free_blocks = 1;
    allocated_bytes = 1200;
    free_bytes = 800;
    metadata_bytes = 128;
  };
}

heap-Holds : Holds heap (block 400 false ∷ (block 800 true ∷ [])) (4096 ∷ (4560 ∷ []))
heap-Holds = record {
  shape = record {
    start_pos = omega arith;
    small = omega arith;
    tiles = (
      record { header_size = refl; header_free = refl; footer_size = refl; footer_free = refl },
      (
        record { header_size = refl; header_free = refl; footer_size = refl; footer_free = refl },
        refl,
      ),
    );
    listed = record {
      linked = record {
        chain = (node refl (omega arith) refl, (node refl (omega arith) refl, refl));
        spread = ((inl (omega arith), tt), (tt, tt));
        size_length = refl;
      };
      ascending = ((refl, tt), (tt, tt));
    };
    members = Permᴰ.refl (4096 ∷ (4560 ∷ []));
    wilderness_last = refl;
  };
  counted = record {
    blocks = refl;
    frees = refl;
    bytes = refl;
    free_bytes = refl;
    metadata = refl;
  };
}

abbrev os : Kernel
os = record { grants = λ brk size. true; mmap = λ size. 1000000 }

append_block-Extended_example :
    Extended heap true (block 400 false ∷ (block 800 true ∷ [])) 504 (append_block os 2 heap 504)
append_block-Extended_example =
    append_block-Extended os 2 heap (block 400 false ∷ (block 800 true ∷ [])) (4096 ∷ (4560 ∷ []))
      504 heap-Holds refl (omega arith) (omega arith)

grow_wilderness-Extended_example :
    Extended heap true (block 400 false ∷ []) 1000 (grow_wilderness os 2 heap 1000)
grow_wilderness-Extended_example =
    grow_wilderness-Extended os 2 heap (block 400 false ∷ []) 800 1000 (4096 ∷ (4560 ∷ []))
      heap-Holds (omega arith) (omega arith) (omega arith)
