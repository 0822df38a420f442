-- ===== src/Malloc/BestFit/Blocks.antt =====
-- `mergeBlocks`, `sfree` and `splitBlock` of hw4/malloc_3.cpp. `munmap` does not touch what is modelled.
pub mod Reinsert
pub mod Mark
pub mod Context
pub mod Merge
pub mod MergeBoth
pub mod Neighbours
pub mod Coalesced
pub mod Release
mod Tests
use operations_systems.Base.{ℕ, ◌+◌, ◌-◌, ◌*◌, ◌%◌, Bool, true, false, ltb, ◌==◌, if◌then◌else◌}
use operations_systems.Malloc.Words.{Ptr, null, word, neg_word, memmove}
use operations_systems.Malloc.BestFit.Memory.{
  Memory, size_of_metadata, tags, size_at, is_free_at, set_size, set_is_free, copy_footer, sub_word,
  update_statistics, Heap, Run, done, ◌>>=◌,
}
use operations_systems.Malloc.BestFit.BlockList.{add_metadata, remove_metadata}

-- MMAP_THRESHOLD
abbrev pub mmap_threshold : ℕ
mmap_threshold = 128 * 1024

-- The footer of the block before, or NULL for the first block.
abbrev pub footer_before : Heap → (address : Ptr) → Ptr
footer_before h address = if address == h.sbrk_start then null else address - size_of_metadata

-- The block behind, or NULL for the last block.
abbrev pub block_behind : Heap → (address : Ptr) → Ptr
block_behind h address =
    let behind = address + size_at h.memory address + tags in
    if behind == h.brk then null else behind

-- `p ? p->is_free : false`.
abbrev pub is_free_if : Memory → Ptr → Bool
is_free_if m p = if p == null then false else is_free_at m p

-- The block whose footer is at `footer`.
abbrev pub block_of_footer : Memory → (footer : Ptr) → Ptr
block_of_footer m footer = footer - size_at m footer - size_of_metadata

-- `p->size += n;`
abbrev pub grow : Heap → Ptr → ℕ → Heap
grow h p n = record h { memory = set_size h.memory p ((size_at h.memory p + n) % word) }

-- The footer of the block at `p`, the counters, and the wilderness where it was at `old`.
abbrev pub finish_merge : Heap → (p old : Ptr) → (blocks frees bytes free_bytes metadata : ℕ) → Heap
finish_merge h p old blocks frees bytes free_bytes metadata = record h {
  memory = copy_footer h.memory p;
  statistics = update_statistics h.statistics blocks frees bytes free_bytes metadata;
  wilderness = if old == h.wilderness then p else h.wilderness;
}

-- `mergeBlocks` between two free blocks.
pub merge_both : ℕ → Heap → (footer current following : Ptr) → Run Heap
merge_both fuel h footer current following =
    let m = h.memory in
    let block = block_of_footer m footer in
    do
      h ←
          remove_metadata fuel
            (grow h block (size_at m following + size_at m current + 4 * size_of_metadata))
            following
      h ← remove_metadata fuel h block
      h ← remove_metadata fuel h current
      h ← add_metadata fuel h block
      let m = copy_footer h.memory block
      done (
          finish_merge h block following (neg_word 2) (neg_word 1) (4 * size_of_metadata)
            (size_at m current + 4 * size_of_metadata) (neg_word (4 * size_of_metadata)))

-- `mergeBlocks` in front of a free block.
pub merge_next : ℕ → Heap → (current following : Ptr) → Run Heap
merge_next fuel h current following = do
  h ← remove_metadata fuel (grow h current (size_at h.memory following + tags)) following
  h ← remove_metadata fuel h current
  h ← add_metadata fuel h current
  let m = copy_footer h.memory current
  done (
      finish_merge h current following (neg_word 1) 0 tags
        (sub_word (size_at m current) (size_at m following)) (neg_word tags))

-- `mergeBlocks` behind a free block.
pub merge_prev : ℕ → Heap → (footer current : Ptr) → Run Heap
merge_prev fuel h footer current =
    let block = block_of_footer h.memory footer in
    do
      h ← remove_metadata fuel (grow h block (size_at h.memory current + tags)) block
      h ← remove_metadata fuel h current
      h ← add_metadata fuel h block
      let m = copy_footer h.memory block
      done (
          finish_merge h block current (neg_word 1) 0 tags (size_at m current + tags)
            (neg_word tags))

pub merge_blocks : ℕ → Heap → (address : Ptr) → Run Heap
merge_blocks fuel h address =
    let footer = footer_before h address in
    let following = block_behind h address in
    let both = merge_both fuel h footer address following in
    let next = merge_next fuel h address following in
    let prev = merge_prev fuel h footer address in
    if is_free_if h.memory following
    then (if is_free_if h.memory footer then both else next)
    else if is_free_if h.memory footer
    then prev
    else done (record h {
      statistics = update_statistics h.statistics 0 1 0 (size_at h.memory address) 0;
    })

-- Header and footer marked free.
abbrev pub mark_free : Memory → (block : Ptr) → Memory
mark_free m block =
    let marked = set_is_free m block true in
    set_is_free marked (block + size_of_metadata + size_at marked block) true

pub sfree : ℕ → Heap → (p : Ptr) → Run Heap
sfree fuel h p =
    let block = p - size_of_metadata in
    let merged = merge_blocks fuel (record h { memory = mark_free h.memory block }) block in
    if p == null
    then done h
    else if is_free_at h.memory block
    then done h
    else if ltb (size_at h.memory block) mmap_threshold
    then merged
    else done (record h {
      memory = set_is_free h.memory block true;
      statistics =
          update_statistics h.statistics (neg_word 1) 0 (neg_word (size_at h.memory block)) 0
            (neg_word tags);
    })

-- The headers of the two halves, both in use.
abbrev pub split_headers : Memory → (size : ℕ) → (low high : Ptr) → Memory
split_headers m size low high =
    let m = set_size m high (sub_word (size_at m low) (size + tags)) in
    set_is_free (set_size (set_is_free m high false) low size) low false

pub split_block : ℕ → Heap → (size : ℕ) → (address : Ptr) → Run Heap
split_block fuel h size address =
    let high = address + size + tags in
    do
      h ← remove_metadata fuel h address
      h ← add_metadata fuel (record h { memory = split_headers h.memory size address high }) address
      h ← add_metadata fuel h high
      let footer = address + size + size_of_metadata
      let m = memmove (copy_footer h.memory high) footer address size_of_metadata
      h ←
          sfree fuel
            (record h {
              memory = m;
              statistics =
                  update_statistics h.statistics 1 (neg_word 1) (neg_word tags)
                    (neg_word (tags + size_at m address + size_at m high)) tags;
            })
            (high + size_of_metadata)
      done (record h { wilderness = if address == h.wilderness then high else h.wilderness })
