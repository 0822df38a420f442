-- ===== src/Malloc/BestFit/Calls.antt =====
-- `smalloc`, `scalloc`, `srealloc` and the counters of hw4/malloc_3.cpp.
pub mod Place
pub mod Extend
pub mod Wilderness
mod Tests
use operations_systems.Base.{
  ℕ, ◌+◌, ◌-◌, ◌*◌, ◌%◌, Bool, true, false, not, ◌&&◌, ◌||◌, leb, ltb, ◌==◌, if◌then◌else◌,
}
use operations_systems.Base.Int.{pos, eqb_ℤ}
use operations_systems.Malloc.Words.{Ptr, null, word, failed, neg_word, sbrk, memmove, memset}
use operations_systems.Malloc.BestFit.Memory.{
  Memory, size_of_metadata, tags, size_at, is_free_at, set_size, set_is_free, sub_word, Heap, Run,
  done, fault, ◌>>=◌,
}
use operations_systems.Malloc.BestFit.BlockList.{add_metadata, remove_metadata, search_free_block}
use operations_systems.Malloc.BestFit.Blocks.{mmap_threshold, sfree, split_block}
use operations_systems.Malloc.BestFit.Kernel.{Kernel, extend_break, count}
use operations_systems.Malloc.BestFit.Realloc.{try_merge_realloc}

-- The next multiple of 8.
abbrev pub align : ℕ → ℕ
align size = if size % 8 == 0 then size else size + (8 - size % 8)

-- MIN_SPLIT_SIZE is 128; the subtraction is of `size_t`.
abbrev pub splits : Memory → (block size : ℕ) → Bool
splits m block size =
    let left = sub_word (size_at m block) (size + tags) in
    leb 128 left && ltb left (size_at m block)

abbrev pub header_in_use : Memory → (p size : ℕ) → Memory
header_in_use m p size = set_is_free (set_size m p size) p false

-- A free block was found.
pub reuse : ℕ → Heap → (size address : ℕ) → Run (Ptr × Heap)
reuse fuel h size address =
    let m = h.memory in
    let used = set_is_free m address false in
    let marked = set_is_free used (address + size_at used address + size_of_metadata) false in
    let split = do h ← split_block fuel h size address; done (address + size_of_metadata, h)
    in if splits m address size
      then split
      else done (
        address + size_of_metadata,
        count (record h { memory = marked }) 0 (neg_word 1) 0 (neg_word (size_at marked address)) 0,
      )

-- The header of the new block, its place in the list, and its footer.
pub place : ℕ → Heap → (size address : ℕ) → Run (Ptr × Heap)
place fuel h size address = do
  h ← add_metadata fuel (record h { memory = header_in_use h.memory address size }) address
  done (
    address + size_of_metadata,
    record h {
      memory = memmove h.memory (address + size + size_of_metadata) address size_of_metadata;
    },
  )

-- The wilderness is free and too small.
pub grow_wilderness : Kernel → ℕ → Heap → (size : ℕ) → Run (Ptr × Heap)
grow_wilderness os fuel h size =
    let old = size_at h.memory h.wilderness in
    let (extended, granted) = extend_break os h (sub_word size old) in
    let placed = do
      h' ←
          remove_metadata fuel (count extended 0 (neg_word 1) (sub_word size old) (neg_word old) 0)
            h.wilderness
      place fuel h' size h.wilderness
    in if leb size old then fault else if not granted then done (null, h) else placed

-- The first block starts at a multiple of 8; false where `sbrk` fails.
pub align_break : Kernel → Heap → Heap × Bool
align_break os h =
    let missing = 8 - h.brk % 8 in
    let (start, brk) = sbrk (os.grants h.brk missing) h.brk missing in
    if eqb_ℤ h.size (pos 0) && not (h.brk % 8 == 0)
    then (record h { brk = brk; sbrk_start = start }, not (start == failed))
    else (h, true)

-- A new block behind the last.
pub append_block : Kernel → ℕ → Heap → (size : ℕ) → Run (Ptr × Heap)
append_block os fuel h size =
    let (aligned, start_granted) = align_break os h in
    let (extended, granted) = extend_break os aligned (size + tags) in
    let placed =
      place fuel (count (record extended { wilderness = aligned.brk }) 1 0 size 0 tags) size
        aligned.brk in
    if not start_granted
    then done (null, aligned)
    else if not granted
    then done (null, aligned)
    else placed

pub map_block : Kernel → Heap → (size : ℕ) → Run (Ptr × Heap)
map_block os h size =
    let address = os.mmap (size + size_of_metadata) in
    if address == failed
    then done (null, h)
    else done (
      address + size_of_metadata,
      count (record h { memory = header_in_use h.memory address size }) 1 0 size 0 tags,
    )

-- Below the threshold.
pub allocate : Kernel → ℕ → Heap → (size : ℕ) → Run (Ptr × Heap)
allocate os fuel h size =
    let grown = grow_wilderness os fuel h size in
    let appended = append_block os fuel h size in
    let wilderness_is_free = not (h.wilderness == null) && is_free_at h.memory h.wilderness in
    let extended = if wilderness_is_free then grown else appended in
    do
      address ← search_free_block fuel h size
      let reused = reuse fuel h size address
      if not (address == null) then reused else extended

pub smalloc : Kernel → ℕ → Heap → (size : ℕ) → Run (Ptr × Heap)
smalloc os fuel h size =
    let small = allocate os fuel h (align size) in
    let large = map_block os h (align size) in
    if size == 0 || ltb 100000000 size
    then done (null, h)
    else if ltb (align size) mmap_threshold
    then small
    else large

pub scalloc : Kernel → ℕ → Heap → (num size : ℕ) → Run (Ptr × Heap)
scalloc os fuel h num size = do
  (address, h) ← smalloc os fuel h (num * size % word)
  let cleared = record h { memory = memset h.memory address 0 (size * num % word) }
  if address == null then done (null, h) else done (address, cleared)

-- The spare part is split off and freed.
pub shrink : ℕ → Heap → (block size : ℕ) → Run Heap
shrink fuel h block size =
    let split = split_block fuel (count h 0 1 0 (size_at h.memory block) 0) size block in
    if splits h.memory block size then split else done h

-- `tryMergeRealloc` failed: the block is freed before the new one is allocated. A fault is a write
-- through NULL.
pub move_freed : Kernel → ℕ → Heap → (oldp size : ℕ) → Run (Ptr × Heap)
move_freed os fuel h oldp size = do
  h ← sfree fuel h oldp
  (address, h) ← smalloc os fuel h size
  let size = size_at h.memory (oldp - size_of_metadata)
  let moved = record h { memory = memmove h.memory address oldp size }
  if address == null then fault else done (address, moved)

-- A block of `mmap`.
pub move_mapped : Kernel → ℕ → Heap → (oldp size : ℕ) → Run (Ptr × Heap)
move_mapped os fuel h oldp size = do
  (newp, h) ← smalloc os fuel h size
  let block = oldp - size_of_metadata
  let moved = record h { memory = memmove h.memory newp oldp (size_at h.memory block) }
  let freed = do h' ← sfree fuel moved oldp; done (newp, h')
  if newp == null then fault else freed

-- The block is larger now, or it moves.
pub resize : Kernel → ℕ → Heap → (oldp size : ℕ) → Run (Ptr × Heap)
resize os fuel h oldp size =
    let block = oldp - size_of_metadata in
    do
      (address, h') ← try_merge_realloc os fuel h block (align size)
      let moved = move_freed os fuel h' oldp size
      let merged = do h ← shrink fuel h' (address - size_of_metadata) size; done (address, h)
      if address == null then moved else merged

pub srealloc : Kernel → ℕ → Heap → (oldp size : ℕ) → Run (Ptr × Heap)
srealloc os fuel h oldp size =
    let block = oldp - size_of_metadata in
    let allocated = smalloc os fuel h size in
    let shrunk = do h ← shrink fuel h block size; done (oldp, h)
    in let resized = resize os fuel h oldp size in
      let mapped = move_mapped os fuel h oldp size in
      if size == 0 || ltb 100000000 size
      then done (null, h)
      else if oldp == null
      then allocated
      else if leb size (size_at h.memory block)
      then shrunk
      else if ltb (size_at h.memory block) mmap_threshold
      then resized
      else mapped

-- The counters that the tests read.
pub num_free_blocks : Heap → ℕ
num_free_blocks h = h.statistics.free_blocks

pub num_free_bytes : Heap → ℕ
num_free_bytes h = h.statistics.free_bytes

pub num_allocated_blocks : Heap → ℕ
num_allocated_blocks h = h.statistics.allocated_blocks

pub num_allocated_bytes : Heap → ℕ
num_allocated_bytes h = h.statistics.allocated_bytes

pub num_meta_data_bytes : Heap → ℕ
num_meta_data_bytes h = h.statistics.metadata_bytes

abbrev pub size_meta_data : ℕ
size_meta_data = size_of_metadata * 2
