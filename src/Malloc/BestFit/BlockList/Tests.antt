-- ===== src/Malloc/BestFit/BlockList/Tests.antt =====
-- A list of two blocks in the memory of hw4/malloc_3.cpp, and runs on it.
use operations_systems.Base.{◌≡◌, refl, inl, inr, List, [], ◌∷◌, arith, ◌==◌, if◌then◌else◌}
use operations_systems.Base.Int.{pos}
use operations_systems.Malloc.Words.{Ptr}
use operations_systems.Malloc.BestFit.Memory.{Memory, Heap, done}
use operations_systems.Malloc.BestFit.BlockList.{add_metadata, remove_metadata, search_free_block}
use operations_systems.Malloc.BestFit.BlockList.Chain.{SameBut, node}
use operations_systems.Malloc.BestFit.BlockList.Order.{IsList, relinked}
use operations_systems.Malloc.BestFit.BlockList.Add.{add_metadata-insert}
use operations_systems.Malloc.BestFit.BlockList.Remove.{remove_metadata-erase}
use operations_systems.Malloc.BestFit.BlockList.Search.{IsBest, search_free_block-IsBest}

-- A free block of 400 bytes at 4096 and one of 800 bytes in use at 4560; a header of 400 bytes at 5424.
abbrev memory : Memory
memory a =
    if a == 4096
    then 400
    else if a == 4104
    then 1
    else if a == 4112
    then 4560
    else if a == 4560
    then 800
    else if a == 4584
    then 4096
    else if a == 5424
    then 400
    else 0

abbrev blocks : List Ptr
blocks = 4096 ∷ (4560 ∷ [])

abbrev heap : Heap
heap = record {
  memory = memory;
  head = 4096;
  wilderness = 4560;
  size = pos 2;
  brk = 5424;
  sbrk_start = 4096;
  statistics = record {
    allocated_blocks = 2;
    free_blocks = 1;
    allocated_bytes = 1200;
    free_bytes = 400;
    metadata_bytes = 128;
  };
}

heap-IsList : IsList heap blocks
heap-IsList = record {
  linked = record {
    chain = (node refl (omega arith) refl, (node refl (omega arith) refl, refl));
    spread = ((inl (omega arith), tt), (tt, tt));
    size_length = refl;
  };
  ascending = ((refl, tt), (tt, tt));
}

add_metadata-insert_example :
    (m' : Memory) × (add_metadata 2 heap 5424
      ≡ done (relinked heap m' (4096 ∷ (5424 ∷ (4560 ∷ [])))))
    × IsList (relinked heap m' (4096 ∷ (5424 ∷ (4560 ∷ [])))) (4096 ∷ (5424 ∷ (4560 ∷ [])))
    × SameBut (5424 ∷ blocks) memory m'
add_metadata-insert_example =
    add_metadata-insert 2 heap 5424 (omega arith) blocks heap-IsList
      (inr (omega arith), (inr (omega arith), tt)) (omega arith)

remove_metadata-erase_example :
    (m' : Memory) × (remove_metadata 2 heap 4560 ≡ done (relinked heap m' (4096 ∷ [])))
    × IsList (relinked heap m' (4096 ∷ [])) (4096 ∷ [])
    × SameBut blocks memory m'
remove_metadata-erase_example =
    remove_metadata-erase 2 heap 4560 blocks heap-IsList refl (omega arith)

search_free_block-IsBest_example :
    (p : Ptr) × (search_free_block 3 heap 300 ≡ done p) × IsBest memory 300 blocks p
search_free_block-IsBest_example =
    search_free_block-IsBest 3 heap 300 blocks heap-IsList (omega arith)
